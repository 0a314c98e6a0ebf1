-- ===== src/RecordId.antt =====
-- include/vm/record_id.hpp: the address of a tuple, a page and a slot.
use prqlite.Base.{ℤ, negsuc, int_beq, int_beq_iff, Bool, true, ◌&&◌, Eq, ◌≡◌, ◌↔◌, arith}

pub record RecordId : Type 0 where
  pub page_id : ℤ
  pub slot_id : ℤ

-- A default-constructed `RecordID` is (-1, -1).
abbrev pub invalid : RecordId
invalid = record { page_id = negsuc 0; slot_id = negsuc 0 }

unfoldable pub rid_beq : RecordId → RecordId → Bool
rid_beq a b = int_beq a.page_id b.page_id && int_beq a.slot_id b.slot_id

pub rid_beq_iff : (a b : RecordId) → (rid_beq a b ≡ true) ↔ (a ≡ b)
unfolding rid_beq
rid_beq_iff a b = ground (arith, int_beq_iff a.page_id b.page_id, int_beq_iff a.slot_id b.slot_id)

instance abbrev pub rid_eq : Eq RecordId
rid_eq = record { beq = rid_beq; beq_iff = rid_beq_iff }

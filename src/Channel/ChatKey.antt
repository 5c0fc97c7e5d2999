-- ===== src/Channel/ChatKey.antt =====
-- apps/xira/internal/chatkey/chatkey.go: whose conversation a turn belongs to.
use xira.Shared.{String, Bool, true, false, ◌&&◌, ◌≡◌, ◌↔◌, ◌==◌, arith, eq_iff}
use xira.Shared.Dict.{Eq}

pub record ChatKey : Type 0 where
  pub channel : String
  pub chat_id : String
  pub sender_id : String
  pub data_isolation : Bool

abbrev same_flag : Bool → Bool → Bool
same_flag true b = b
same_flag false true = false
same_flag false false = true

abbrev pub key_beq : ChatKey → ChatKey → Bool
key_beq a b =
    a.channel == b.channel
    && a.chat_id == b.chat_id
    && a.sender_id == b.sender_id
    && same_flag a.data_isolation b.data_isolation

pub key_beq_iff : (a b : ChatKey) → (key_beq a b ≡ true) ↔ (a ≡ b)
key_beq_iff a b =
    ground (
      arith,
      eq_iff a.channel b.channel,
      eq_iff a.chat_id b.chat_id,
      eq_iff a.sender_id b.sender_id,
    )

instance abbrev pub key_eq : Eq ChatKey
key_eq = record { beq = key_beq; beq_iff = key_beq_iff }

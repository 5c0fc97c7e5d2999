-- ===== src/Channel/Dedupe/Tests.antt =====
-- Runs of a deduper, and its theorems at them.
use xira.Shared.{true, false, ◌≡◌, refl, List, [], ◌∷◌, arith, eq_iff}
use xira.Shared.Int.{pos, negsuc}
use xira.Shared.Strings.{trim}
use xira.Shared.Dict
use xira.Shared.Dict.{string_eq}
use xira.Channel.Dedupe.{
  MessageDeduper, File, Write, Status, begin, complete, forget, effective_ttl, persist, new,
}
use xira.Channel.Dedupe.Promise.{
  Call, answers, promised_answers, table, is_taken, answers-table, IsOrdered,
}
use xira.Channel.Dedupe.Restart.{table-new-persist}

abbrev quick : MessageDeduper
quick = record {
  ttl = 10;
  path = "seen.json";
  entries = ("m0", record { status = Status.completed; expires_at = 5 }) ∷ [];
  file = File.missing;
}

-- A repeat, an entry that has run out, a key that is forgotten, and a failed write.
abbrev calls : List Call
calls =
    Call.begins "m0" 4 Write.done
    ∷ Call.begins " m1 " 6 Write.done
    ∷ Call.begins "m1" 7 (Write.failed File.malformed)
    ∷ Call.begins "m0" 8 Write.done
    ∷ Call.forgets "m1" Write.done
    ∷ Call.begins "m1" 9 Write.done
    ∷ Call.completes "m0" 12 Write.done
    ∷ Call.begins "m0" 21 Write.done
    ∷ Call.begins "m0" 22 Write.done
    ∷ []

answers-calls :
    answers calls quick ≡ (false ∷ true ∷ false ∷ true ∷ true ∷ true ∷ true ∷ false ∷ true ∷ [])
unfolding answers begin complete forget trim Dict.lookup Dict.keep Dict.insert Dict.remove
answers-calls = refl

effective_ttl-negative : effective_ttl (negsuc 4) ≡ 3600000000000
unfolding effective_ttl
effective_ttl-negative = refl

answers-table_example : answers calls quick ≡ promised_answers 10 calls (table quick)
unfolding IsOrdered Dict.lookup
answers-table_example = answers-table calls quick (ground arith) (refl, tt)

table-new-persist_example :
    is_taken 4 (table (new "seen.json" (pos 10) 3 (persist Write.done quick).file) "m0")
    ≡ is_taken 4 (table quick "m0")
unfolding Dict.lookup trim
table-new-persist_example =
    table-new-persist quick (pos 10) 3 4 "m0" (λ e. grind (arith, eq_iff "seen.json" ""))
      (λ e. grind (arith, eq_iff "m0" "")) (ground arith) (refl, tt)

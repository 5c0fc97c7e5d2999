-- ===== src/Channel/Dedupe/Promise.antt =====
-- What a deduper promises: a table from keys to the time until which they are taken, with neither
-- entries to prune nor a file, and the runs of calls on both.
use xira.Shared.{
  ℕ, String, Bool, true, false, ◌≡◌, refl, Option, none, some, List, [], ◌∷◌, ◌==◌, ◌+◌, ◌≤◌, ltb,
  if◌then◌else◌, arith, ap, inl, inr, Bool-cases, ◌∙◌, sym,
}
use xira.Shared.Strings.{trim}
use xira.Shared.Dict
use xira.Shared.Dict.{Dict, kept, string_eq}
use xira.Channel.Dedupe.{
  Entry, Write, MessageDeduper, begin, begin_pruned, complete, forget, persist, prune, is_live,
}

pub data Call : Type 0 where
  begins : String → ℕ → Write → Call
  completes : String → ℕ → Write → Call
  forgets : String → Write → Call

-- The answer of one call, `true` where the call has none.
unfoldable pub call : Call → MessageDeduper → Bool × MessageDeduper
call (Call.begins key now w) d = begin key now w d
call (Call.completes key now w) d = (true, complete key now w d)
call (Call.forgets key w) d = (true, forget key w d)

unfoldable pub answers : List Call → MessageDeduper → List Bool
unfolding call
answers [] d = []
answers (c ∷ cs) d = let r = call c d in r.0 ∷ answers cs r.1

abbrev pub Table : Type 0
Table = String → Option ℕ

unfoldable pub is_taken : ℕ → Option ℕ → Bool
is_taken now none = false
is_taken now (some until) = ltb now until

unfoldable pub set : String → Option ℕ → Table → Table
set key until t j = if key == j then until else t j

unfoldable pub promised_call : ℕ → Call → Table → Bool × Table
unfolding is_taken set
promised_call ttl (Call.begins key now w) t =
    let k = trim key in
    if k == ""
    then (true, t)
    else (if is_taken now (t k) then (false, t) else (true, set k (some (now + ttl)) t))
promised_call ttl (Call.completes key now w) t =
    let k = trim key in (true, (if k == "" then t else set k (some (now + ttl)) t))
promised_call ttl (Call.forgets key w) t =
    let k = trim key in (true, (if k == "" then t else set k none t))

unfoldable pub promised_answers : ℕ → List Call → Table → List Bool
unfolding promised_call is_taken set
promised_answers ttl [] t = []
promised_answers ttl (c ∷ cs) t = let r = promised_call ttl c t in r.0 ∷ promised_answers ttl cs r.1

unfoldable pub expiry : Option Entry → Option ℕ
expiry none = none
expiry (some e) = some e.expires_at

-- The table that a deduper stands for.
unfoldable pub table : MessageDeduper → Table
unfolding expiry
table d key = expiry (Dict.lookup key d.entries)

-- The clock of a call, for a call that reads it.
unfoldable pub clock : ℕ → Call → ℕ
clock before (Call.begins key now w) = now
clock before (Call.completes key now w) = now
clock before (Call.forgets key w) = before

-- The clock never goes back.
unfoldable pub IsOrdered : ℕ → List Call → Type 0
unfolding clock
IsOrdered before [] = Unit
IsOrdered before (c ∷ cs) = (before ≤ clock before c) × IsOrdered (clock before c) cs

-- From `now` on, the entries and the table take the same keys.
record Agrees (now : ℕ) (es : Dict String Entry) (t : Table) : Type 0 where
  unique : Dict.HasUniqueKeys es
  same :
      (later : ℕ) (key : String)
      → now ≤ later
      → is_taken later (expiry (Dict.lookup key es)) ≡ is_taken later (t key)

persist-entries : (w : Write) (d : MessageDeduper) → (persist w d).entries ≡ d.entries
unfolding persist
persist-entries w d = ground arith

persist-ttl : (w : Write) (d : MessageDeduper) → (persist w d).ttl ≡ d.ttl
unfolding persist
persist-ttl w d = ground arith

kept-taken :
    (now later : ℕ) (o : Option Entry)
    → now ≤ later
    → is_taken later (expiry (kept (is_live now) o)) ≡ is_taken later (expiry o)
unfolding kept is_live is_taken expiry
kept-taken now later none h = refl
kept-taken now later (some e) h = ground arith

keep-Agrees :
    {before : ℕ} {es : Dict String Entry} {t : Table} (now : ℕ)
    → before ≤ now
    → Agrees before es t
    → Agrees now (Dict.keep (is_live now) es) t
keep-Agrees now h a = record {
  unique = Dict.HasUniqueKeys-keep (is_live now) _ a.unique;
  same = λ later key l.
      rw (Dict.lookup-keep (is_live now) key _ a.unique)
        (kept-taken now later (Dict.lookup key _) l ∙ a.same later key (ground arith));
}

insert-Agrees :
    {before : ℕ} {es : Dict String Entry} {t : Table} (now : ℕ) (key : String) (e : Entry)
    → before ≤ now
    → Agrees before es t
    → Agrees now (Dict.insert key e es) (set key (some e.expires_at) t)
unfolding set is_taken expiry
insert-Agrees now key e h a = record {
  unique = Dict.HasUniqueKeys-insert key e _ a.unique;
  same = λ later k l. rw (Dict.lookup-insert key k e _) (ground (arith, a.same later k));
}

remove-Agrees :
    {now : ℕ} {es : Dict String Entry} {t : Table} (key : String)
    → Agrees now es t
    → Agrees now (Dict.remove key es) (set key none t)
unfolding set is_taken expiry
remove-Agrees key a = record {
  unique = Dict.HasUniqueKeys-remove key _ a.unique;
  same = λ later k l. rw (Dict.lookup-remove key k _) (ground (arith, a.same later k));
}

-- One call, from its answer to what it leaves.
abbrev Follows : ℕ → ℕ → Bool × MessageDeduper → Bool × Table → Type 0
Follows now ttl (answer, d) (promised, t) =
    (answer ≡ promised) × Agrees now d.entries t × (d.ttl ≡ ttl)

later-Agrees :
    {before now : ℕ} {es : Dict String Entry} {t : Table}
    → before ≤ now
    → Agrees before es t
    → Agrees now es t
later-Agrees h a = record { unique = a.unique; same = λ l key p. a.same l key (ground arith) }

Agrees-taken :
    {now : ℕ} {es : Dict String Entry} {t : Table}
    → Agrees now es t
    → (key : String) → is_taken now (expiry (Dict.lookup key es)) ≡ is_taken now (t key)
Agrees-taken a key = a.same _ key (ground arith)

kept_idem :
    (now : ℕ) (o : Option Entry) → kept (is_live now) (kept (is_live now) o) ≡ kept (is_live now) o
unfolding kept
kept_idem now none = refl
kept_idem now (some e) = elim (Bool-cases (is_live now e)) [
  | inl h ↦ rw h (rw h refl)
  | inr h ↦ rw h refl
]

keep-kept :
    (now : ℕ) (key : String) (es : Dict String Entry)
    → Dict.HasUniqueKeys es
    → kept (is_live now) (Dict.lookup key (Dict.keep (is_live now) es))
      ≡ Dict.lookup key (Dict.keep (is_live now) es)
keep-kept now key es u =
    rw (Dict.lookup-keep (is_live now) key es u) (kept_idem now (Dict.lookup key es))

begin_pruned-Follows :
    (key : String) (now : ℕ) (w : Write) (d : MessageDeduper) (t : Table) (o : Option Entry)
    → Agrees now d.entries t
    → kept (is_live now) o ≡ o
    → is_taken now (expiry o) ≡ is_taken now (t key)
    → Follows now d.ttl
        (begin_pruned key now w d o)
        (if is_taken now (t key) then (false, t) else (true, set key (some (now + d.ttl)) t))
unfolding begin_pruned is_taken expiry kept is_live
begin_pruned-Follows key now w d t none a l h = rw (sym h) (
    rw (persist-entries w _)
      (rw (persist-ttl w _) (refl, insert-Agrees now key _ (ground arith) a, refl)))
begin_pruned-Follows key now w d t (some e) a l h = elim (Bool-cases (is_taken now (t key))) [
  | inl y ↦ rw y (rw (persist-entries w d) (rw (persist-ttl w d) (refl, a, refl)))
  | inr n ↦ ground arith
]

call-Follows :
    (before : ℕ) (c : Call) (d : MessageDeduper) (t : Table)
    → before ≤ clock before c
    → Agrees before d.entries t
    → Follows (clock before c) d.ttl (call c d) (promised_call d.ttl c t)
unfolding call promised_call clock begin complete forget
call-Follows before (Call.begins key now w) d t h a = elim (Bool-cases (trim key == "")) [
  | inl e ↦ rw e (refl, later-Agrees h a, refl)
  | inr e ↦ rw e (
      begin_pruned-Follows (trim key) now w (prune now d) t _ (keep-Agrees now h a)
        (keep-kept now (trim key) d.entries a.unique)
        (Agrees-taken (keep-Agrees now h a) (trim key)))
]
call-Follows before (Call.completes key now w) d t h a = elim (Bool-cases (trim key == "")) [
  | inl e ↦ rw e (refl, later-Agrees h a, refl)
  | inr e ↦ rw e (
      rw (persist-entries w _)
        (rw (persist-ttl w _) (refl, insert-Agrees now (trim key) _ h a, refl)))
]
call-Follows before (Call.forgets key w) d t h a = elim (Bool-cases (trim key == "")) [
  | inl e ↦ rw e (refl, a, refl)
  | inr e ↦
      rw e
        (rw (persist-entries w _) (rw (persist-ttl w _) (refl, remove-Agrees (trim key) a, refl)))
]

cong-cons : {a b : Bool} {l m : List Bool} → a ≡ b → l ≡ m → (a ∷ l) ≡ (b ∷ m)
cong-cons p q = cc

answers-promised :
    (before : ℕ) (cs : List Call) (d : MessageDeduper) (t : Table)
    → IsOrdered before cs
    → Agrees before d.entries t
    → answers cs d ≡ promised_answers d.ttl cs t
unfolding answers promised_answers IsOrdered
answers-promised before [] d t o a = refl
answers-promised before (c ∷ cs) d t o a =
    let m : Follows (clock before c) d.ttl (call c d) (promised_call d.ttl c t) =
      call-Follows before c d t o.0 a in
    cong-cons m.0 (
      answers-promised (clock before c) cs (call c d).1 (promised_call d.ttl c t).1 o.1 m.1
      ∙ ap (λ (n : ℕ). promised_answers n cs (promised_call d.ttl c t).1) m.2)

-- Beginning, completing and forgetting messages, in any order and with any outcome of the writes
-- of the file, answers as the table of taken keys does, if the clock does not go back and no key
-- has two entries.
pub answers-table :
    (cs : List Call) (d : MessageDeduper)
    → IsOrdered 0 cs
    → Dict.HasUniqueKeys d.entries
    → answers cs d ≡ promised_answers d.ttl cs (table d)
unfolding table
answers-table cs d o u =
    answers-promised 0 cs d (table d) o (record { unique = u; same = λ later key h. refl })

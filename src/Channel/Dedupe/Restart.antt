-- ===== src/Channel/Dedupe/Restart.antt =====
-- A deduper that is made again from the file of another one.
use xira.Shared.{
  ℕ, String, false, not, ◌||◌, ◌≡◌, ◌≢◌, refl, none, [], ◌∷◌, ◌==◌, ◌≤◌, arith, eq_iff, ap, sym,
  ◌∙◌, inl, inr, Bool-cases,
}
use xira.Shared.Int.{ℤ}
use xira.Shared.Strings.{trim, trim-empty}
use xira.Shared.Dict
use xira.Shared.Dict.{Dict, string_eq}
use xira.Channel.Dedupe.{
  Entry, Write, MessageDeduper, new, load, load_entries, persist, is_live, written, with_status,
}
use xira.Channel.Dedupe.Promise.{is_taken, expiry, table}

lookup-load_entries-none :
    (now : ℕ) (key : String) (es acc : Dict String Entry)
    → Dict.lookup key es ≡ none
    → Dict.lookup key (load_entries now es acc) ≡ Dict.lookup key acc
unfolding load_entries Dict.lookup
lookup-load_entries-none now key [] acc h = refl
lookup-load_entries-none now key ((k, v) ∷ es) acc h =
    elim (Bool-cases (k == "" || not (is_live now v))) [
      | inl e ↦ rw e (lookup-load_entries-none now key es acc (ground arith))
      | inr e ↦ rw e (
          lookup-load_entries-none now key es (Dict.insert k _ acc) (ground arith)
          ∙ (rw (Dict.lookup-insert k key _ acc) (ground arith)))
    ]

-- The entry that is loaded first, where no later one has its key.
taken-load_entries-same :
    (now later : ℕ) (key k : String) (v : Entry) (es acc : Dict String Entry)
    → key ≢ ""
    → now ≤ later
    → k ≡ key
    → Dict.lookup k es ≡ none
    → Dict.lookup key acc ≡ none
    → is_taken later (expiry (Dict.lookup key (load_entries now ((k, v) ∷ es) acc)))
      ≡ is_taken later (expiry (Dict.lookup key ((k, v) ∷ es)))
unfolding load_entries Dict.lookup is_live is_taken expiry
taken-load_entries-same now later key k v es acc n l q u h =
    elim (Bool-cases (k == "" || not (is_live now v))) [
      | inl e ↦ rw e (
          rw
            (lookup-load_entries-none now key es acc
              (ap (λ (j : String). Dict.lookup j es) (sym q) ∙ u))
            (rw h (ground (arith, eq_iff k key, eq_iff k ""))))
      | inr e ↦ rw e (
          rw
            (lookup-load_entries-none now key es (Dict.insert k _ acc)
              (ap (λ (j : String). Dict.lookup j es) (sym q) ∙ u))
            (rw (Dict.lookup-insert k key _ acc) (ground (arith, eq_iff k key))))
    ]

taken-load_entries :
    (now later : ℕ) (key : String) (es acc : Dict String Entry)
    → key ≢ ""
    → now ≤ later
    → Dict.HasUniqueKeys es
    → Dict.lookup key acc ≡ none
    → is_taken later (expiry (Dict.lookup key (load_entries now es acc)))
      ≡ is_taken later (expiry (Dict.lookup key es))
unfolding load_entries Dict.lookup
taken-load_entries now later key [] acc n l u h = rw h refl
taken-load_entries now later key ((k, v) ∷ es) acc n l u h = elim (Bool-cases (k == key)) [
  | inl e ↦
      taken-load_entries-same now later key k v es acc n l (ground (arith, eq_iff k key)) u.0 h
  | inr e ↦ rw e (
      taken-load_entries now later key es _ n l u.1 (
        ground
          (arith, h, e, Dict.lookup-insert k key (record v { status = with_status v.status }) acc)))
]

beq_false : (s t : String) → s ≢ t → (s == t) ≡ false
beq_false s t n = grind (arith, eq_iff s t)

-- A deduper made from the file that another one has just written takes the same keys as it, from
-- then on; but for the empty key, which neither takes.
pub table-new-persist :
    (d : MessageDeduper) (ttl : ℤ) (now later : ℕ) (key : String)
    → trim d.path ≢ ""
    → key ≢ ""
    → now ≤ later
    → Dict.HasUniqueKeys d.entries
    → is_taken later (table (new d.path ttl now (persist Write.done d).file) key)
      ≡ is_taken later (table d key)
unfolding table new load persist written Dict.lookup
table-new-persist d ttl now later key p n l u = rw (beq_false (trim d.path) "" p) (
    rw (beq_false d.path "" (λ q. p (ap trim q ∙ trim-empty)))
      (taken-load_entries now later key d.entries [] n l u refl))

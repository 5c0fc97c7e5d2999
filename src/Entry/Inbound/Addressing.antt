-- ===== src/Entry/Inbound/Addressing.antt =====
-- The addressing of a message as its metadata keep it.
use xira.Shared.{
  Bool, true, false, List, [], ◌∷◌, ◌++◌, if◌then◌else◌, ◌≡◌, refl, map, String, Bool-cases, inl,
  inr, ◌==◌, eq_iff, eq_refl, sym, ap, ◌∙◌,
}
use xira.Shared.Strings.{trim}
use xira.Shared.Fields.{split, join}
use xira.Shared.Dict
use xira.Shared.Dict.{Dict, string_eq}
use xira.Flow.Run.{AddressTarget, InboundContext}
use xira.Entry.Texts.{Texts}
use xira.Entry.Inbound.{
  normalize_address_targets, parse_address_targets, has_target, target_text, first_metadata,
  put_metadata, normalize_inbound_context,
}

-- The four addressings there are.
parse-join :
    (x : Texts) (agent owner : Bool)
    → x.to_lower "agent" ≡ "agent"
    → x.to_lower "owner" ≡ "owner"
    → normalize_address_targets x (
        parse_address_targets (
          join "," (
            map target_text (
              (if agent then AddressTarget.agent ∷ [] else [])
              ++ (if owner then AddressTarget.owner ∷ [] else [])))))
      ≡ (if agent then AddressTarget.agent ∷ [] else [])
        ++ (if owner then AddressTarget.owner ∷ [] else [])
unfolding normalize_address_targets parse_address_targets has_target split join trim
parse-join x true true a o = rw a (rw o refl)
parse-join x true false a o = rw a refl
parse-join x false true a o = rw o refl
parse-join x false false a o = refl

-- What is put under a key, when it has no white space around it, is read from it.
first_metadata-put :
    (key value : String) (m : Dict String String)
    → trim value ≡ value
    → first_metadata (put_metadata key value m) (key ∷ []) ≡ value
unfolding first_metadata put_metadata trim
first_metadata-put key value m h = elim (Bool-cases (value == "")) [
  | inl y ↦
      rw y (rw (Dict.lookup-remove key key m) (rw (eq_refl key) (sym ((eq_iff value "").0 y))))
  | inr n ↦ rw n (rw (Dict.lookup-insert_self key value m) (rw h (rw n refl)))
]

kept_text : Bool → Bool → String
kept_text agent owner = join "," (
    map target_text (
      (if agent then AddressTarget.agent ∷ [] else [])
      ++ (if owner then AddressTarget.owner ∷ [] else [])))

trim-kept_text : (agent owner : Bool) → trim (kept_text agent owner) ≡ kept_text agent owner
unfolding trim kept_text join
trim-kept_text true true = refl
trim-kept_text true false = refl
trim-kept_text false true = refl
trim-kept_text false false = refl

addressed_to-put :
    (x : Texts) (ts : List AddressTarget) (m : Dict String String)
    → x.to_lower "agent" ≡ "agent"
    → x.to_lower "owner" ≡ "owner"
    → normalize_address_targets x (
        parse_address_targets (
          first_metadata
            (put_metadata "addressed_to"
              (join "," (map target_text (normalize_address_targets x ts)))
              m)
            ("addressed_to" ∷ [])))
      ≡ normalize_address_targets x ts
unfolding normalize_address_targets kept_text
addressed_to-put x ts m a o =
    let agent = has_target x "agent" ts in
    let owner = has_target x "owner" ts in
    ap (λ (s : String). normalize_address_targets x (parse_address_targets s))
      (first_metadata-put "addressed_to" (kept_text agent owner) m (trim-kept_text agent owner))
    ∙ parse-join x agent owner a o

-- What `NormalizeInboundContext` puts under `addressed_to` in the metadata reads back, by the same
-- parsing and normalization, as the addressing of the context it returns, if `ToLower` leaves the
-- two names as they are.
pub addressed_to-normalize_inbound_context :
    (x : Texts) (ctx : InboundContext)
    → x.to_lower "agent" ≡ "agent"
    → x.to_lower "owner" ≡ "owner"
    → normalize_address_targets x (
        parse_address_targets
          (first_metadata (normalize_inbound_context x ctx).raw ("addressed_to" ∷ [])))
      ≡ (normalize_inbound_context x ctx).addressed_to
unfolding normalize_inbound_context
addressed_to-normalize_inbound_context x ctx a o = addressed_to-put x _ _ a o

-- ===== src/Runtime/OwnerBind/Ownership.antt =====
-- What a bind command can change.
use xira.Shared.{
  String, not, ◌&&◌, Option, none, some, List, [], ◌∷◌, ◌==◌, if◌then◌else◌, ◌≡◌, ◌≢◌, refl, ap,
  ◌∙◌, sym, arith, eq_iff, inl, inr, ◌⊎◌, Bool-cases, eq_refl,
}
use xira.Shared.Dict
use xira.Shared.Dict.{Dict, string_eq}
use xira.Runtime.OwnerBind.{
  OwnerBinding, Service, Persist, Answer, Command, handle_owner_bind, bind_by, bind_first,
  bind_again, write_binding, persist_locked, bound,
}

-- The owner of an entrypoint.
abbrev owner_in : Option OwnerBinding → Option String
owner_in none = none
owner_in (some b) = some b.owner_sender_id

abbrev pub owner : String → Service → Option String
owner id s = owner_in (Dict.lookup id s.bindings)

-- How one command changes the owners: not at all, or its sender becomes that of an entrypoint
-- without one, by its code, and the binding is saved.
pub data Change (c : Command) (s s' : Service) : Answer → Type 0 where
  same :
      {a : Answer}
      → ((id : String) → owner id s' ≡ owner id s)
      → s'.bind_codes ≡ s.bind_codes
      → a ≢ bound
      → Change c s s' a
  bind :
      owner c.entrypoint_id s ≡ none
      → Dict.lookup c.entrypoint_id s.bind_codes ≡ some c.code
      → ((id : String)
          → owner id s' ≡ (if c.entrypoint_id == id then some c.sender_id else owner id s))
      → Dict.lookup c.entrypoint_id s'.bind_codes ≡ none
      → s'.file ≡ s'.bindings
      → Change c s s' bound

Persist-cases :
    (p : Persist)
    → (p ≡ Persist.done) ⊎ ((left : Dict String OwnerBinding) × (p ≡ Persist.failed left))
Persist-cases Persist.done = inl refl
Persist-cases (Persist.failed left) = inr (left, refl)

owner-insert :
    (key id : String) (b : OwnerBinding) (d : Dict String OwnerBinding)
    → owner_in (Dict.lookup id (Dict.insert key b d))
      ≡ (if key == id then some b.owner_sender_id else owner_in (Dict.lookup id d))
owner-insert key id b d =
    rw (Dict.lookup-insert key id b d)
      (elim (Bool-cases (key == id)) [ inl y ↦ rw y refl | inr n ↦ rw n refl ])

-- What is rolled back leaves the owners.
owner-remove-insert :
    (key id : String) (b : OwnerBinding) (d : Dict String OwnerBinding)
    → Dict.lookup key d ≡ none
    → owner_in (Dict.lookup id (Dict.remove key (Dict.insert key b d)))
      ≡ owner_in (Dict.lookup id d)
owner-remove-insert key id b d h = rw (Dict.lookup-remove key id (Dict.insert key b d)) (
    rw (Dict.lookup-insert key id b d) (elim (Bool-cases (key == id)) [
      | inl y ↦
          rw y (ap owner_in (sym h ∙ ap (λ (k : String). Dict.lookup k d) ((eq_iff key id).0 y)))
      | inr n ↦ rw n refl
    ]))

owner-insert_same :
    (key id : String) (b e : OwnerBinding) (d : Dict String OwnerBinding)
    → Dict.lookup key d ≡ some e
    → b.owner_sender_id ≡ e.owner_sender_id
    → owner_in (Dict.lookup id (Dict.insert key b d)) ≡ owner_in (Dict.lookup id d)
owner-insert_same key id b e d h q = owner-insert key id b d ∙ (elim (Bool-cases (key == id)) [
  | inl y ↦
      rw y (
        ap some q
        ∙ ap owner_in (sym h ∙ ap (λ (k : String). Dict.lookup k d) ((eq_iff key id).0 y)))
  | inr n ↦ rw n refl
])

bind_first-Change :
    (type : String) (c : Command) (code : Option String) (s : Service)
    → Dict.lookup c.entrypoint_id s.bindings ≡ none
    → Dict.lookup c.entrypoint_id s.bind_codes ≡ code
    → Change c s (bind_first type c code s).1 (bind_first type c code s).0
unfolding bind_first write_binding persist_locked
bind_first-Change type c none s h k = same (λ id. refl) refl (λ e. grind arith)
bind_first-Change type c (some expected) s h k = elim (Bool-cases (c.code == expected)) [
  | inr n ↦ rw n (same (λ id. refl) refl (λ e. grind arith))
  | inl y ↦ rw y (elim (Persist-cases c.persist) [
    | inl q ↦ rw q (
        bind (ap owner_in h) (k ∙ ap some (sym ((eq_iff c.code expected).0 y)))
          (λ id. owner-insert c.entrypoint_id id _ s.bindings)
          (Dict.lookup-remove c.entrypoint_id c.entrypoint_id s.bind_codes
            ∙ (rw (eq_refl c.entrypoint_id) refl))
          refl)
    | inr (left, q) ↦
        rw q (
          same (λ id. owner-remove-insert c.entrypoint_id id _ s.bindings h) refl
            (λ e. grind arith))
  ])
]

bind_again-Change :
    (type : String) (c : Command) (b : OwnerBinding) (s : Service)
    → Dict.lookup c.entrypoint_id s.bindings ≡ some b
    → Change c s (bind_again type c b s).1 (bind_again type c b s).0
unfolding bind_again write_binding persist_locked
bind_again-Change type c b s h = elim (Bool-cases (b.owner_sender_id == c.sender_id)) [
  | inr n ↦ rw n (same (λ id. refl) refl (λ e. grind arith))
  | inl y ↦ rw y (elim (Bool-cases (b.owner_sender_id_type == "" && not (type == ""))) [
    | inr n ↦ rw n (same (λ id. refl) refl (λ e. grind arith))
    | inl m ↦ rw m (elim (Persist-cases c.persist) [
      | inl q ↦ rw q (
          same (λ id. owner-insert_same c.entrypoint_id id _ b s.bindings h refl) refl
            (λ e. grind arith))
      | inr (left, q) ↦ rw q (
          same
            (λ id.
              owner-insert_same c.entrypoint_id id b _ _
                (Dict.lookup-insert_self c.entrypoint_id _ s.bindings) refl
              ∙ owner-insert_same c.entrypoint_id id (record b { owner_sender_id_type = type }) b
                  s.bindings h refl)
            refl (λ e. grind arith))
    ])
  ])
]

bind_by-Change :
    (type : String) (c : Command) (o : Option OwnerBinding) (s : Service)
    → Dict.lookup c.entrypoint_id s.bindings ≡ o
    → Change c s (bind_by type c o s).1 (bind_by type c o s).0
unfolding bind_by
bind_by-Change type c none s h = bind_first-Change type c _ s h refl
bind_by-Change type c (some b) s h = bind_again-Change type c b s h

-- A bind command either leaves every owner and every code as they were, and does not answer that it
-- has bound; or it answers so, the entrypoint had no owner, the code was the entrypoint's, the
-- sender becomes its owner and no other owner changes, the code is gone, and the file has what
-- memory has.
pub handle_owner_bind-Change :
    (to_lower : String → String) (c : Command) (s : Service)
    → Change c s (handle_owner_bind to_lower c s).1 (handle_owner_bind to_lower c s).0
unfolding handle_owner_bind
handle_owner_bind-Change to_lower c s = bind_by-Change _ c _ s refl

unfoldable pub bind_all : (String → String) → List Command → Service → Service
bind_all to_lower [] s = s
bind_all to_lower (c ∷ cs) s = bind_all to_lower cs (handle_owner_bind to_lower c s).1

Change-owner :
    {c : Command} {s s' : Service} {a : Answer} (id o : String)
    → Change c s s' a
    → owner id s ≡ some o
    → owner id s' ≡ some o
Change-owner id o (same h k n) q = h id ∙ q
Change-owner {c} {s} id o (bind h k f g e) q = f id ∙ (elim (Bool-cases (c.entrypoint_id == id)) [
  | inl y ↦
      let e : some o ≡ none =
        sym q ∙ ap (λ (k : String). owner k s) (sym ((eq_iff c.entrypoint_id id).0 y)) ∙ h in
      grind arith
  | inr n ↦ rw n q
])

-- An entrypoint that has an owner keeps it, whatever bind commands come in, from whom, with which
-- codes, and whichever writes fail.
pub owner-bind_all :
    (to_lower : String → String) (cs : List Command) (s : Service) (id o : String)
    → owner id s ≡ some o
    → owner id (bind_all to_lower cs s) ≡ some o
unfolding bind_all
owner-bind_all to_lower [] s id o h = h
owner-bind_all to_lower (c ∷ cs) s id o h =
    owner-bind_all to_lower cs (handle_owner_bind to_lower c s).1 id o
      (Change-owner id o (handle_owner_bind-Change to_lower c s) h)

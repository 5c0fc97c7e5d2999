-- ===== src/HumanRequest/Evolution.antt =====
-- How a disk may change: each request that it holds lives on at its place, and a disk whose
-- requests are well formed and stand in their own files stays so.
use xira.Shared.{
  String, Bool, true, false, ◌≡◌, refl, sym, ap, ◌∙◌, none, some, some_inj, if◌then◌else◌,
}
use mathlib.Core.Path.{subst}
use xira.Shared.Strings.{trim}
use xira.Shared.Dict
use xira.Shared.Dict.{
  Dict, pair_eq, pair_beq, pair_beq_iff, lookup-insert, HasUniqueKeys, HasUniqueKeys-insert,
}
use xira.HumanRequest.Types.{HumanRequest}
use xira.HumanRequest.Disk.{Disk}
use xira.HumanRequest.Edits.{stored, put}
use xira.HumanRequest.Lifecycle.{
  Step, Steps, here, next, Steps-trans, IsWellFormed, Step-IsWellFormed, Step-SameQuestion,
}

-- A well-formed request in the file of its own id, in the directory of its own workspace.
pub record IsFiled (ws id : String) (r : HumanRequest) : Type 0 where
  pub workspace : r.workspace_key ≡ ws
  pub name : trim r.id ≡ id
  pub well_formed : IsWellFormed r

pub record IsOrderly (d : Disk) : Type 0 where
  pub filed : (ws id : String) (r : HumanRequest) → stored ws id d ≡ some r → IsFiled ws id r
  pub unique : HasUniqueKeys d.requests

-- What became of a request.
pub record Later (ws id : String) (d : Disk) (r : HumanRequest) : Type 0 where
  pub now : HumanRequest
  pub held : stored ws id d ≡ some now
  pub steps : Steps r now

pub record Evolves (d d' : Disk) : Type 0 where
  pub later : (ws id : String) (r : HumanRequest) → stored ws id d ≡ some r → Later ws id d' r

pub Evolves-of_same : {d d' : Disk} → d'.requests ≡ d.requests → Evolves d d'
Evolves-of_same e = record {
  later = λ ws id r h. record { now = r; held = ap (Dict.lookup (ws, id)) e ∙ h; steps = here };
}

pub IsOrderly-of_same : {d d' : Disk} → d'.requests ≡ d.requests → IsOrderly d → IsOrderly d'
IsOrderly-of_same e o = record {
  filed = λ ws id r h. o.filed ws id r (sym (ap (Dict.lookup (ws, id)) e) ∙ h);
  unique = subst HasUniqueKeys (sym e) o.unique;
}

pub Evolves-trans : {a b c : Disk} → Evolves a b → Evolves b c → Evolves a c
Evolves-trans p q = record {
  later = λ ws id r h.
      let l = p.later ws id r h in
      let m = q.later ws id l.now l.held in
      record { now = m.now; held = m.held; steps = Steps-trans l.steps m.steps };
}

-- What the disk holds once a request is written.
pub stored-put :
    (s : HumanRequest) (ws id : String) (d : Disk)
    → stored ws id (put s d)
      ≡ (if pair_beq (s.workspace_key, trim s.id) (ws, id) then some s else stored ws id d)
stored-put s ws id d = lookup-insert (s.workspace_key, trim s.id) (ws, id) s d.requests

module _ (ws id : String) (r s : HumanRequest) (d d' : Disk) (held : stored ws id d ≡ some r)
    (f : IsFiled ws id r) (st : Step r s) (e : d'.requests ≡ (put s d).requests) where
  key_kept : ((s.workspace_key ≡ ws) × (trim s.id ≡ id))
  key_kept =
      let same = Step-SameQuestion st in
      (same.workspace_key ∙ f.workspace, ap trim same.id ∙ f.name)

  stored-step :
      (ws' id' : String)
      → stored ws' id' d' ≡ (if pair_beq (ws, id) (ws', id') then some s else stored ws' id' d)
  stored-step ws' id' =
      rw (← key_kept.0, ← key_kept.1) (ap (Dict.lookup (ws', id')) e ∙ stored-put s ws' id' d)

  same_request :
      (ws' id' : String) (q : HumanRequest)
      → pair_beq (ws, id) (ws', id') ≡ true
      → stored ws' id' d ≡ some q
      → r ≡ q
  same_request ws' id' q h k = some_inj (
      sym held
      ∙ ap (λ (p : String × String). Dict.lookup p d.requests)
          ((pair_beq_iff (ws, id) (ws', id')).0 h)
      ∙ k)

  -- The request is written over, and no other.
  Later-of_step :
      (ws' id' : String) (q : HumanRequest) (b : Bool)
      → pair_beq (ws, id) (ws', id') ≡ b
      → stored ws' id' d ≡ some q
      → Later ws' id' d' q
  Later-of_step ws' id' q true h k = record {
    now = s;
    held = rw h at (stored-step ws' id');
    steps = next here (subst (λ x. Step x s) (same_request ws' id' q h k) st);
  }
  Later-of_step ws' id' q false h k = record {
    now = q;
    held = (rw h at (stored-step ws' id')) ∙ k;
    steps = here;
  }

  pub Evolves-of_step : Evolves d d'
  Evolves-of_step = record {
    later = λ ws' id' q k. Later-of_step ws' id' q (pair_beq (ws, id) (ws', id')) refl k;
  }

  IsFiled-of_step :
      (ws' id' : String) (q : HumanRequest) (b : Bool)
      → pair_beq (ws, id) (ws', id') ≡ b
      → stored ws' id' d' ≡ some q
      → IsOrderly d
      → IsFiled ws' id' q
  IsFiled-of_step ws' id' q true h k o =
      let e' : s ≡ q = some_inj (sym (rw h at (stored-step ws' id')) ∙ k) in
      let at_key = (pair_beq_iff (ws, id) (ws', id')).0 h in
      subst (IsFiled ws' id') e' (record {
        workspace = key_kept.0 ∙ ap (λ (p : String × String). p.0) at_key;
        name = key_kept.1 ∙ ap (λ (p : String × String). p.1) at_key;
        well_formed = Step-IsWellFormed st f.well_formed;
      })
  IsFiled-of_step ws' id' q false h k o =
      o.filed ws' id' q (sym (rw h at (stored-step ws' id')) ∙ k)

  pub IsOrderly-of_step : IsOrderly d → IsOrderly d'
  IsOrderly-of_step o = record {
    filed = λ ws' id' q k. IsFiled-of_step ws' id' q (pair_beq (ws, id) (ws', id')) refl k o;
    unique = subst HasUniqueKeys (sym e) (HasUniqueKeys-insert _ s d.requests o.unique);
  }

-- A request that is written to a file of its own.
module _ (s : HumanRequest) (d : Disk) (free : stored s.workspace_key (trim s.id) d ≡ none) where
  Later-of_put :
      (ws id : String) (q : HumanRequest) (b : Bool)
      → pair_beq (s.workspace_key, trim s.id) (ws, id) ≡ b
      → stored ws id d ≡ some q
      → Later ws id (put s d) q
  Later-of_put ws id q true h k =
      let e = (pair_beq_iff (s.workspace_key, trim s.id) (ws, id)).0 h in
      cc (ap (λ (p : String × String). Dict.lookup p d.requests) e, free, k)
  Later-of_put ws id q false h k = record {
    now = q;
    held = (rw h at (stored-put s ws id d)) ∙ k;
    steps = here;
  }

  IsFiled-of_put :
      (ws id : String) (q : HumanRequest) (b : Bool)
      → pair_beq (s.workspace_key, trim s.id) (ws, id) ≡ b
      → stored ws id (put s d) ≡ some q
      → IsWellFormed s
      → IsOrderly d
      → IsFiled ws id q
  IsFiled-of_put ws id q true h k w o =
      let e' : s ≡ q = some_inj (sym (rw h at (stored-put s ws id d)) ∙ k) in
      let at_key = (pair_beq_iff (s.workspace_key, trim s.id) (ws, id)).0 h in
      subst (IsFiled ws id) e' (record {
        workspace = ap (λ (p : String × String). p.0) at_key;
        name = ap (λ (p : String × String). p.1) at_key;
        well_formed = w;
      })
  IsFiled-of_put ws id q false h k w o = o.filed ws id q (sym (rw h at (stored-put s ws id d)) ∙ k)

  pub Evolves-of_put : Evolves d (put s d)
  Evolves-of_put = record {
    later =
        λ ws id q k. Later-of_put ws id q (pair_beq (s.workspace_key, trim s.id) (ws, id)) refl k;
  }

  pub IsOrderly-of_put : IsWellFormed s → IsOrderly d → IsOrderly (put s d)
  IsOrderly-of_put w o = record {
    filed = λ ws id q k.
        IsFiled-of_put ws id q (pair_beq (s.workspace_key, trim s.id) (ws, id)) refl k w o;
    unique = HasUniqueKeys-insert _ s d.requests o.unique;
  }

-- ===== src/Runtime/OwnerBind.antt =====
-- apps/xira/internal/runtime/owner_bind.go: the owners of entrypoints and the codes that make a
-- sender one. A command runs under the store's write lock, so it is a function of the state.
pub mod Ownership
use xira.Shared.{
  ℕ, String, Bool, true, false, not, ◌&&◌, Option, none, some, List, [], ◌∷◌, ◌==◌, if◌then◌else◌,
}
use xira.Shared.Strings.{trim}
use xira.Shared.Dict
use xira.Shared.Dict.{Dict, string_eq}

pub record OwnerBinding : Type 0 where
  pub entrypoint_id : String
  pub owner_sender_id : String
  pub owner_sender_id_type : String
  pub bound_at : ℕ

pub record Service : Type 0 where
  pub bindings : Dict String OwnerBinding
  pub bind_codes : Dict String String
  pub file : Dict String OwnerBinding

-- How `persistLocked` ends; a failed write leaves something in the file.
pub data Persist : Type 0 where
  done : Persist
  failed : Dict String OwnerBinding → Persist

-- The answers of the command.
pub data Answer : Type 0 where
  already_owner owner_taken not_enabled wrong_code type_not_saved not_saved bound : Answer

-- One `/bind <code>` as it arrives: `strings.ToLower` is a parameter, as its tables are.
pub record Command : Type 0 where
  pub entrypoint_id : String
  pub sender_id : String
  pub sender_id_type : String
  pub code : String
  pub now : ℕ
  pub persist : Persist

-- `load`: the entries of the file, the last of a key.
unfoldable pub load : List OwnerBinding → Dict String OwnerBinding → Dict String OwnerBinding
load [] d = d
load (b ∷ bs) d = load bs (Dict.insert b.entrypoint_id b d)

-- `IsBound`
unfoldable pub is_bound : String → Service → Bool
is_bound id s = elim (Dict.lookup id s.bindings) [ none ↦ false | some b ↦ true ]

-- `persistLocked`
unfoldable pub persist_locked : Persist → Service → Bool × Service
persist_locked Persist.done s = (true, record s { file = s.bindings })
persist_locked (Persist.failed left) s = (false, record s { file = left })

-- A binding is written; where it cannot be saved, `undo` is what memory holds again.
unfoldable pub write_binding :
    Persist
    → String
    → OwnerBinding
    → (Dict String OwnerBinding → Dict String OwnerBinding)
    → Service
    → Bool × Service
unfolding persist_locked
write_binding p id b undo s =
    let d = Dict.insert id b s.bindings in
    let r = persist_locked p (record s { bindings = d }) in
    if r.0 then r else (false, record r.1 { bindings = undo d })

-- `Set`
unfoldable pub set_binding : Persist → OwnerBinding → Service → Service
unfolding persist_locked
set_binding p b s =
    (persist_locked p (record s { bindings = Dict.insert b.entrypoint_id b s.bindings })).1

-- The entrypoint is bound already.
unfoldable pub bind_again : String → Command → OwnerBinding → Service → Answer × Service
unfolding write_binding persist_locked
bind_again type c existing s =
    let enriched = record existing { owner_sender_id_type = type } in
    let w =
      write_binding c.persist c.entrypoint_id enriched (Dict.insert c.entrypoint_id existing) s in
    if not (existing.owner_sender_id == c.sender_id)
    then (Answer.owner_taken, s)
    else (if not (existing.owner_sender_id_type == "" && not (type == ""))
        then (Answer.already_owner, s)
        else (if w.0 then (Answer.already_owner, w.1) else (Answer.type_not_saved, w.1)))

-- The entrypoint has no owner, and perhaps a code.
unfoldable pub bind_first : String → Command → Option String → Service → Answer × Service
unfolding write_binding persist_locked
bind_first type c none s = (Answer.not_enabled, s)
bind_first type c (some expected) s =
    let b : OwnerBinding = record {
      entrypoint_id = c.entrypoint_id;
      owner_sender_id = c.sender_id;
      owner_sender_id_type = type;
      bound_at = c.now;
    } in
    let w = write_binding c.persist c.entrypoint_id b (Dict.remove c.entrypoint_id) s in
    if not (c.code == expected)
    then (Answer.wrong_code, s)
    else (if w.0
        then (Answer.bound, record w.1 { bind_codes = Dict.remove c.entrypoint_id s.bind_codes })
        else (Answer.not_saved, w.1))

unfoldable pub bind_by : String → Command → Option OwnerBinding → Service → Answer × Service
unfolding bind_first bind_again
bind_by type c (some existing) s = bind_again type c existing s
bind_by type c none s = bind_first type c (Dict.lookup c.entrypoint_id s.bind_codes) s

-- `handleOwnerBindWithIdentity`
unfoldable pub handle_owner_bind : (String → String) → Command → Service → Answer × Service
unfolding bind_by
handle_owner_bind to_lower c s =
    bind_by (to_lower (trim c.sender_id_type)) c (Dict.lookup c.entrypoint_id s.bindings) s

-- `generateAndAnnounceBindCodes`: each entrypoint with the code that is drawn for it. The result
-- has the lines that are printed.
unfoldable pub announce_codes : List (String × String) → Service → List (String × String) × Service
unfolding is_bound
announce_codes [] s = ([], s)
announce_codes ((id, code) ∷ rest) s =
    let skipped = announce_codes rest s in
    let r = announce_codes rest (record s { bind_codes = Dict.insert id code s.bind_codes }) in
    if is_bound id s then skipped else ((id, code) ∷ r.0, r.1)

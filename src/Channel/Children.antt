-- ===== src/Channel/Children.antt =====
-- apps/xira/internal/channelrunner/progress/child_cancel_registry.go: the children of a conversation
-- that can be canceled. A cancel function is known by its token; `canceled` lists the tokens whose
-- functions have been called.
use Prim.Native.Nat.{◌%◌}
use xira.Shared.{ℕ, suc, Option, none, some, List, [], ◌∷◌, ◌++◌, eqb, if◌then◌else◌, length}
use xira.Shared.Dict
use xira.Shared.Dict.{Dict}
use xira.Channel.ChatKey.{ChatKey, key_eq}

pub record ChildCancelRegistry : Type 0 where
  pub cancels : Dict ChatKey (List ℕ)
  pub canceled : List ℕ

-- `NewChildCancelRegistry`
abbrev pub new_registry : ChildCancelRegistry
new_registry = record { cancels = []; canceled = [] }

abbrev pub or_empty : Option (List ℕ) → List ℕ
or_empty none = []
or_empty (some s) = s

-- `r.cancels[key]`
unfoldable pub registered : ChatKey → ChildCancelRegistry → List ℕ
registered key r = or_empty (Dict.lookup key r.cancels)

-- `Register`: the token that the handle removes, the counter after it, and the registry.
unfoldable pub register : ChatKey → ℕ → ChildCancelRegistry → ℕ × ChildCancelRegistry
unfolding registered
register key seq r =
    let token = (suc seq) % 18446744073709551616 in
    (token, record r { cancels = Dict.insert key (registered key r ++ token ∷ []) r.cancels })

-- The list without the first entry of the token.
unfoldable pub without : ℕ → List ℕ → List ℕ
without token [] = []
without token (e ∷ s) = let rest = without token s in if eqb e token then s else e ∷ rest

-- A key's list, or no entry for an empty one.
unfoldable pub put : ChatKey → List ℕ → Dict ChatKey (List ℕ) → Dict ChatKey (List ℕ)
put key [] d = Dict.remove key d
put key (e ∷ s) d = Dict.insert key (e ∷ s) d

-- `remove`
unfoldable pub remove : ChatKey → ℕ → ChildCancelRegistry → ChildCancelRegistry
unfolding registered without put
remove key token r = record r { cancels = put key (without token (registered key r)) r.cancels }

-- `CancelAll`
unfoldable pub cancel_all : ChatKey → ChildCancelRegistry → ℕ × ChildCancelRegistry
unfolding registered
cancel_all key r =
    (length (registered key r), record r { canceled = r.canceled ++ registered key r })

-- `Reset`
unfoldable pub reset : ChatKey → ChildCancelRegistry → ChildCancelRegistry
reset key r = record r { cancels = Dict.remove key r.cancels }

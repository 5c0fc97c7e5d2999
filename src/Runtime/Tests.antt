-- ===== src/Runtime/Tests.antt =====
-- Runs of the turn's states and of bind commands, and their theorems at these runs.
use xira.Shared.{String, ◌≡◌, ◌↔◌, refl, true, none, some, List, [], ◌∷◌}
use xira.Shared.Strings.{trim}
use xira.Shared.Dict
use xira.Shared.Dict.{string_eq}
use xira.Runtime.AgentTurn.{
  is_valid_transition, is_terminal, running, waiting_human, completed, requested,
}
use xira.Runtime.AgentTurn.Order.{
  History, here, moved, allows, is_valid_transition-allows, history-terminal,
}
use xira.Runtime.OwnerBind.{Service, Command, Persist, handle_owner_bind}
use xira.Runtime.OwnerBind.Ownership.{
  Change, bind_all, owner, handle_owner_bind-Change, owner-bind_all,
}

asked : History requested completed
unfolding is_valid_transition
asked = moved {t = running} refl (moved {t = waiting_human} refl (moved refl here))

again : History completed completed
unfolding is_valid_transition
again = moved {t = completed} refl (moved refl here)

is_valid_transition-allows_example :
    (is_valid_transition requested completed ≡ none) ↔ (allows requested completed ≡ true)
is_valid_transition-allows_example = is_valid_transition-allows requested completed

history-terminal_example : completed ≡ completed
unfolding is_terminal
history-terminal_example = history-terminal refl again

abbrev unbound : Service
unbound = record { bindings = []; bind_codes = ("main", "AAAA-BBBB") ∷ []; file = [] }

abbrev command : String → String → Persist → Command
command who code p = record {
  entrypoint_id = "main";
  sender_id = who;
  sender_id_type = " open_id ";
  code = code;
  now = 7;
  persist = p;
}

abbrev commands : List Command
commands =
    command "eve" "AAAA-CCCC" Persist.done
    ∷ command "ann" "AAAA-BBBB" (Persist.failed [])
    ∷ command "ann" "AAAA-BBBB" Persist.done
    ∷ command "eve" "AAAA-BBBB" Persist.done
    ∷ []

abbrev as_is : String → String
as_is s = s

owner-commands : owner "main" (bind_all as_is commands unbound) ≡ some "ann"
unfolding bind_all handle_owner_bind Dict.lookup Dict.insert Dict.remove trim
owner-commands = refl

handle_owner_bind-Change_example :
    Change
      (command "ann" "AAAA-BBBB" Persist.done)
      unbound
      (handle_owner_bind as_is (command "ann" "AAAA-BBBB" Persist.done) unbound).1
      (handle_owner_bind as_is (command "ann" "AAAA-BBBB" Persist.done) unbound).0
handle_owner_bind-Change_example =
    handle_owner_bind-Change as_is (command "ann" "AAAA-BBBB" Persist.done) unbound

owner-bind_all_example :
    owner "main" (bind_all as_is commands (bind_all as_is commands unbound)) ≡ some "ann"
owner-bind_all_example =
    owner-bind_all as_is commands (bind_all as_is commands unbound) "main" "ann" owner-commands

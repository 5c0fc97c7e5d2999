-- ===== src/Channel/Tests.antt =====
-- Runs of the router and of a session on one conversation, and their theorems at these runs.
use xira.Shared.{
  ℕ, String, Bool, true, false, ◌≡◌, ◌≤◌, refl, Option, none, some, [], ◌∷◌, ◌++◌, if◌then◌else◌,
  ltb, arith, ◌⊎◌,
}
use xira.Shared.Strings.{trim}
use xira.Shared.Dict
use xira.Channel.ChatKey.{ChatKey, key_eq}
use xira.Channel.Children.{ChildCancelRegistry, new_registry, register, remove, registered}
use xira.Channel.Session.{
  ChatKeySessionConfig, World, Ran, RunResult, Turn, run_turn, cleared, completes, forgets,
}
use xira.Channel.Session.Effects.{messages_run, messages_in, releases, texts_sent}
use xira.Channel.Session.Messages.{messages-run_turn}
use xira.Channel.Session.Ending.{releases-run_turn}
use xira.Channel.Session.Termination.{run_turn-ends}

abbrev alice : ChatKey
alice = record { channel = "feishu"; chat_id = "c1"; sender_id = "alice"; data_isolation = false }

abbrev bob : ChatKey
bob = record { channel = "feishu"; chat_id = "c1"; sender_id = "bob"; data_isolation = false }

registered-remove :
    registered alice (remove alice 1 (register alice 1 (register alice 0 new_registry).1).1)
    ≡ 2 ∷ []
unfolding registered remove register Dict.lookup Dict.insert
registered-remove = refl

abbrev wired : ChatKeySessionConfig
wired = record {
  dedupe_complete = true;
  dedupe_forget = true;
  spawn_resetter = true;
  on_run_error = true;
  on_turn_result = false;
  on_raw_event = true;
  on_turn_end = true;
}

-- The first run is steered by a message that comes in during it; the second replies.
abbrev first_run : Ran
first_run = record {
  arrivals = "stop" ∷ "b" ∷ [];
  registry = (register alice 0 new_registry).1;
  result = RunResult.steered;
}

abbrev later_run : ChildCancelRegistry → Ran
later_run r = record {
  arrivals = [];
  registry = r;
  result =
      RunResult.replied (record { run_id = "run"; status = "completed"; final_response = "done" });
}

abbrev world : Bool → World
world fails = record {
  run_agent = λ n msg r. if ltb n 1 then first_run else later_run r;
  send_fails = λ s. fails;
}

abbrev no_turn : Turn
no_turn = record { round = 0; queue = []; registry = new_registry; effects = [] }

abbrev or_no_turn : Option Turn → Turn
or_no_turn none = no_turn
or_no_turn (some t) = t

abbrev turn : Bool → Turn
unfolding run_turn trim register registered Dict.lookup Dict.insert Dict.remove
turn fails = or_no_turn (run_turn 2 wired (world fails) alice "hello" [])

turn-some : run_turn 2 wired (world true) alice "hello" [] ≡ some (turn true)
unfolding run_turn trim register registered Dict.lookup Dict.insert Dict.remove turn cleared
turn-some = refl

turn-effects :
    (messages_run (turn true).effects ≡ "hello" ∷ "stop" ∷ [])
    × ((turn true).queue ≡ "b" ∷ [])
    × (releases (turn true).effects ≡ forgets ∷ [])
    × (releases (turn false).effects ≡ completes ∷ [])
unfolding run_turn trim register registered Dict.lookup Dict.insert Dict.remove turn cleared
    messages_run releases
turn-effects = (refl, refl, refl, refl)

messages-run_turn_example :
    messages_run (turn true).effects ++ (turn true).queue
    ≡ "hello" ∷ [] ++ messages_in (turn true).effects
messages-run_turn_example =
    messages-run_turn 2 wired (world true) alice "hello" [] (turn true) turn-some

releases-run_turn_example :
    (releases (turn true).effects ≡ completes ∷ [])
    ⊎ ((releases (turn true).effects ≡ forgets ∷ [])
        × (texts_sent (world true) (turn true).effects ≡ [])
        × (wired.dedupe_forget ≡ true))
releases-run_turn_example =
    releases-run_turn 2 wired (world true) alice "hello" [] (turn true) turn-some

silent :
    (n : ℕ) (m : String) (r : ChildCancelRegistry)
    → 1 ≤ n
    → ((world true).run_agent n m r).arrivals ≡ []
silent n m r h = ground arith

run_turn-ends_example :
    (fuel : ℕ) × (t : Turn) × (run_turn fuel wired (world true) alice "hello" ("a" ∷ []) ≡ some t)
run_turn-ends_example = run_turn-ends wired (world true) alice "hello" ("a" ∷ []) 1 silent

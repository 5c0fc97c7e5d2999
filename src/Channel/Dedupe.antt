-- ===== src/Channel/Dedupe.antt =====
-- apps/xira/internal/channelrunner/dedupe/dedupe.go: the messages seen lately, in memory and in a
-- file. The mutex is held through each operation, so an operation is a function of the state. `file`
-- is what the file decodes to; times are nanoseconds.
pub mod Promise
pub mod Restart
mod Tests
use xira.Shared.{
  ℕ, zero, suc, String, Bool, true, false, not, ◌||◌, Option, none, some, ◌==◌, ◌+◌, ltb,
  if◌then◌else◌, [], ◌∷◌,
}
use xira.Shared.Int.{ℤ, pos, negsuc}
use xira.Shared.Strings.{trim}
use xira.Shared.Dict
use xira.Shared.Dict.{Dict, string_eq}

pub data Status : Type 0 where
  unset : Status
  processing : Status
  completed : Status

pub record Entry : Type 0 where
  pub status : Status
  pub expires_at : ℕ

-- What `os.ReadFile` and `json.Unmarshal` find at the path.
pub data File : Type 0 where
  missing : File
  unreadable : File
  malformed : File
  holding : Dict String Entry → File

-- How a write of the file ends. `failed` names what it leaves there.
pub data Write : Type 0 where
  done : Write
  failed : File → Write

pub record MessageDeduper : Type 0 where
  pub ttl : ℕ
  pub path : String
  pub entries : Dict String Entry
  pub file : File

-- `time.Hour`
abbrev hour : ℕ
hour = 3600000000000

-- The `ttl` that `New` keeps.
unfoldable pub effective_ttl : ℤ → ℕ
effective_ttl (pos zero) = hour
effective_ttl (pos (suc n)) = suc n
effective_ttl (negsuc n) = hour

unfoldable pub is_live : ℕ → Entry → Bool
is_live now e = ltb now e.expires_at

unfoldable pub with_status : Status → Status
with_status Status.unset = Status.completed
with_status Status.processing = Status.processing
with_status Status.completed = Status.completed

-- The loop of `load`.
unfoldable pub load_entries : ℕ → Dict String Entry → Dict String Entry → Dict String Entry
unfolding is_live with_status
load_entries now [] d = d
load_entries now ((key, value) ∷ rest) d =
    let next =
      (if key == "" || not (is_live now value)
        then d
        else Dict.insert key (record value { status = with_status value.status }) d) in
    load_entries now rest next

unfoldable pub load : ℕ → File → Dict String Entry → Dict String Entry
unfolding load_entries is_live with_status
load now File.missing d = d
load now File.unreadable d = d
load now File.malformed d = d
load now (File.holding es) d = load_entries now es d

-- `New`, at the time `now`, over what the file holds.
unfoldable pub new : String → ℤ → ℕ → File → MessageDeduper
unfolding load load_entries is_live with_status effective_ttl
new path ttl now file =
    let p = trim path in
    record {
      ttl = effective_ttl ttl;
      path = p;
      entries = if p == "" then [] else load now file [];
      file = file;
    }

unfoldable pub written : Write → Dict String Entry → File
written Write.done d = File.holding d
written (Write.failed left) d = left

-- `persistLocked`, whose error every caller drops.
unfoldable pub persist : Write → MessageDeduper → MessageDeduper
unfolding written
persist w d = if d.path == "" then d else record d { file = written w d.entries }

-- `pruneLocked`
unfoldable pub prune : ℕ → MessageDeduper → MessageDeduper
unfolding is_live
prune now d = record d { entries = Dict.keep (is_live now) d.entries }

-- The choice of `Begin` on the pruned entries, by whether the key has one.
unfoldable pub begin_pruned :
    String → ℕ → Write → MessageDeduper → Option Entry → Bool × MessageDeduper
unfolding persist written
begin_pruned key now w d (some e) = (false, persist w d)
begin_pruned key now w d none =
    let e : Entry = record { status = Status.processing; expires_at = now + d.ttl } in
    (true, persist w (record d { entries = Dict.insert key e d.entries }))

-- `Begin`
unfoldable pub begin : String → ℕ → Write → MessageDeduper → Bool × MessageDeduper
unfolding begin_pruned persist written prune is_live
begin key now w d =
    let k = trim key in
    let pruned = prune now d in
    if k == "" then (true, d) else begin_pruned k now w pruned (Dict.lookup k pruned.entries)

-- `Complete`
unfoldable pub complete : String → ℕ → Write → MessageDeduper → MessageDeduper
unfolding persist written
complete key now w d =
    let k = trim key in
    let e : Entry = record { status = Status.completed; expires_at = now + d.ttl } in
    if k == "" then d else persist w (record d { entries = Dict.insert k e d.entries })

-- `Forget`
unfoldable pub forget : String → Write → MessageDeduper → MessageDeduper
unfolding persist written
forget key w d =
    let k = trim key in
    if k == "" then d else persist w (record d { entries = Dict.remove k d.entries })

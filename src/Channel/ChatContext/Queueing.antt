-- ===== src/Channel/ChatContext/Queueing.antt =====
-- The queue of a chat context: its bound, and what it drops.
use xira.Shared.{
  suc, String, Bool, true, false, not, ◌||◌, Option, none, some, List, [], ◌∷◌, ◌++◌, if◌then◌else◌,
  ltb, eqb, length, select, ◌≡◌, ◌≤◌, refl, ap, ◌∙◌, arith, inl, inr, Bool-cases, Extends,
  Extends-refl, ◌⊎◌, select-append,
}
use xira.Shared.Int.{ℤ}
use xira.Channel.Events.{Event, Body, priority}
use xira.Channel.ChatContext.{
  ChatContext, Policy, Step, new_chat_context, deliver, evict_for, admitted, queued, after,
  send_one, dispatch_first, dispatch, dispatch_message, step, run, chat_context_queue_capacity,
  is_final,
}
use xira.Channel.Render.{Message, render_event}

length-snoc : (q : List Event) (e : Event) → length (q ++ e ∷ []) ≡ suc (length q)
length-snoc [] e = refl
length-snoc (x ∷ q) e = ap suc (length-snoc q e)

-- What an eviction leaves: one event less, the critical ones all there.
abbrev pub is_critical : Event → Bool
is_critical e = eqb (priority e.body) 1

abbrev Evicted : List Event → Option (List Event) → Type 0
Evicted q none = Unit
Evicted q (some r) = (suc (length r) ≡ length q) × (select is_critical r ≡ select is_critical q)

priority-bound : (b : Body) → priority b ≤ 1
unfolding priority
priority-bound b = ground arith

after-Evicted :
    (e : Event) (q : List Event) (o : Option (List Event))
    → Evicted q o
    → Evicted (e ∷ q) (after e o)
unfolding select
after-Evicted e q none h = tt
after-Evicted e q (some r) h = (
  ap suc h.0,
  elim (Bool-cases (is_critical e)) [
    | inl y ↦ rw y (ap (λ (l : List Event). e ∷ l) h.1)
    | inr n ↦ rw n h.1
  ],
)

evict_for-Evicted : (b : Body) (q : List Event) → Evicted q (evict_for (priority b) q)
unfolding evict_for select
evict_for-Evicted b [] = tt
evict_for-Evicted b (e ∷ q) = elim (Bool-cases (ltb (priority e.body) (priority b))) [
  | inl y ↦
      rw y (refl, let low : is_critical e ≡ false = ground (arith, priority-bound b) in rw low refl)
  | inr n ↦ rw n (after-Evicted e q (evict_for (priority b) q) (evict_for-Evicted b q))
]

admitted-length :
    (e : Event) (q : List Event) (o : Option (List Event))
    → Evicted q o
    → length (admitted e q o) ≡ length q
admitted-length e q none h = refl
admitted-length e q (some r) h = length-snoc r e ∙ h.0

admitted-Extends :
    (e : Event) (q : List Event) (o : Option (List Event))
    → Evicted q o
    → Extends (select is_critical q) (select is_critical (admitted e q o))
admitted-Extends e q none h = Extends-refl (select is_critical q)
admitted-Extends e q (some r) h = record {
  more = select is_critical (e ∷ []);
  eq =
      select-append is_critical r (e ∷ [])
      ∙ ap (λ (l : List Event). l ++ select is_critical (e ∷ [])) h.1;
}

queued-Extends :
    (e : Event) (c : ChatContext)
    → Extends (select is_critical c.queue) (select is_critical (queued e c).queue)
unfolding queued
queued-Extends e c = elim (Bool-cases (ltb (length c.queue) chat_context_queue_capacity)) [
  | inl y ↦ rw y (record {
    more = select is_critical (e ∷ []);
    eq = select-append is_critical c.queue (e ∷ []);
  })
  | inr n ↦ rw n (admitted-Extends e c.queue _ (evict_for-Evicted e.body c.queue))
]

queued-length :
    (e : Event) (c : ChatContext)
    → length c.queue ≤ chat_context_queue_capacity
    → length (queued e c).queue ≤ chat_context_queue_capacity
unfolding queued
queued-length e c h = elim (Bool-cases (ltb (length c.queue) chat_context_queue_capacity)) [
  | inl y ↦ rw y (
      let q : length (c.queue ++ e ∷ []) ≡ suc (length c.queue) = length-snoc c.queue e in
      ground arith)
  | inr n ↦ rw n (
      let q : length (admitted e c.queue (evict_for (priority e.body) c.queue)) ≡ length c.queue =
        admitted-length e c.queue _ (evict_for-Evicted e.body c.queue) in
      omega arith)
]

-- A delivery leaves the queue, or goes into it.
deliver-queue :
    (e : Event) (c : ChatContext)
    → ((deliver e c).queue ≡ c.queue) ⊎ ((deliver e c).queue ≡ (queued e c).queue)
unfolding deliver
deliver-queue e c = elim (Bool-cases (not c.has_sender || c.drained)) [
  | inl y ↦ rw y (inl refl)
  | inr n ↦ rw n (elim (Bool-cases (is_final e.body)) [
    | inl y ↦ rw y (inl refl)
    | inr m ↦ rw m (closed c.queue_closed)
  ])
]
  where
    closed :
        (b : Bool)
        → ((if b then c else queued e c).queue ≡ c.queue)
          ⊎ ((if b then c else queued e c).queue ≡ (queued e c).queue)
    closed true = inl refl
    closed false = inr refl

-- A delivery loses no event of the queue but droppable ones: the critical ones stay, in order, and
-- a delivered one comes after them.
pub deliver-Extends :
    (e : Event) (c : ChatContext)
    → Extends (select is_critical c.queue) (select is_critical (deliver e c).queue)
deliver-Extends e c = elim (deliver-queue e c) [
  | inl y ↦ rw y (Extends-refl (select is_critical c.queue))
  | inr y ↦ rw y (queued-Extends e c)
]

deliver-length :
    (e : Event) (c : ChatContext)
    → length c.queue ≤ chat_context_queue_capacity
    → length (deliver e c).queue ≤ chat_context_queue_capacity
deliver-length e c h = elim (deliver-queue e c) [
  | inl y ↦ rw y h
  | inr y ↦ rw y (queued-length e c h)
]

dispatch_message-queue :
    (e : Event) (o : Option Message) (c : ChatContext) → (dispatch_message e o c).queue ≡ c.queue
unfolding dispatch_message
dispatch_message-queue e none c = refl
dispatch_message-queue e (some m) c = ground arith

dispatch_first-length :
    (to_lower : String → String) (q : List Event) (c : ChatContext)
    → q ≡ c.queue
    → length (dispatch_first to_lower q c).queue ≤ length c.queue
unfolding dispatch_first dispatch
dispatch_first-length to_lower [] c h = omega arith
dispatch_first-length to_lower (e ∷ q) c h =
    rw (dispatch_message-queue e (render_event to_lower c.max_chars e) (record c { queue = q }))
      (let l : suc (length q) ≡ length c.queue = ap length h in omega arith)

step-length :
    (to_lower : String → String) (s : Step) (c : ChatContext)
    → length c.queue ≤ chat_context_queue_capacity
    → length (step to_lower s c).queue ≤ chat_context_queue_capacity
unfolding step send_one
step-length to_lower (Step.delivers e) c h = deliver-length e c h
step-length to_lower Step.sends c h =
    let l : length (dispatch_first to_lower c.queue c).queue ≤ length c.queue =
      dispatch_first-length to_lower c.queue c refl in
    omega arith
step-length to_lower Step.stops c h = h
step-length to_lower Step.resets c h = omega arith

run-length :
    (to_lower : String → String) (ss : List Step) (c : ChatContext)
    → length c.queue ≤ chat_context_queue_capacity
    → length (run to_lower ss c).queue ≤ chat_context_queue_capacity
unfolding run
run-length to_lower [] c h = h
run-length to_lower (s ∷ ss) c h =
    run-length to_lower ss (step to_lower s c) (step-length to_lower s c h)

-- The queue of a chat context never has more than 256 events, whatever is delivered and however
-- slowly it is sent.
pub length-run :
    (to_lower : String → String) (ss : List Step) (has_sender : Bool) (max_chars : ℤ) (p : Policy)
    → length (run to_lower ss (new_chat_context has_sender max_chars p)).queue ≤ 256
unfolding new_chat_context
length-run to_lower ss has_sender max_chars p =
    run-length to_lower ss (new_chat_context has_sender max_chars p) (omega arith)

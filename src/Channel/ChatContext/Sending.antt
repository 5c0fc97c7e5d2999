-- ===== src/Channel/ChatContext/Sending.antt =====
-- What a chat context sends: within its caps, and nothing twice.
use mathlib.Core.Path.{subst}
use xira.Shared.{
  ℕ, suc, String, Bool, true, false, not, ◌&&◌, ◌||◌, ◌==◌, Option, none, some, List, [], ◌∷◌,
  if◌then◌else◌, map, ◌≡◌, ◌≤◌, ◌<◌, refl, ap, sym, ◌∙◌, arith,
}
use xira.Shared.Int.{ℤ, pos, negsuc}
use xira.Channel.Events.{Event, kind}
use xira.Channel.ChatContext.{
  ChatContext, Policy, Sent, Step, new_chat_context, deliver, queued, send_one, dispatch_first,
  dispatch, dispatch_message, step, run, is_spent, was_sent, progress_quota_limit, stop, reset,
}
use xira.Channel.Render.{Message, is_child_event}

abbrev of_bucket : Bool → Sent → Bool
of_bucket true s = not s.waiting && s.child
of_bucket false s = not s.waiting && not s.child

-- The progress messages of a child, or of the turn itself, that were sent.
unfoldable pub count_sent : Bool → List Sent → ℕ
count_sent child [] = 0
count_sent child (s ∷ ss) =
    let rest = count_sent child ss in if of_bucket child s then suc rest else rest

abbrev pub sent_key : Sent → String × String
sent_key s = (s.kind, s.message.text)

-- No kind and text twice.
unfoldable pub has_repeat : List (String × String) → Bool
unfolding was_sent
has_repeat [] = false
has_repeat (d ∷ ds) = was_sent d.0 d.1 ds || has_repeat ds

-- A cap that is positive holds.
abbrev pub IsWithin : ℤ → ℕ → Type 0
IsWithin (pos n) sent = 0 < n → sent ≤ n
IsWithin (negsuc n) sent = Unit

record IsCounted (p : Policy) (c : ChatContext) : Type 0 where
  policy : c.policy ≡ p
  parent : count_sent false c.sent ≡ c.parent_progress_sent
  child : count_sent true c.sent ≡ c.child_progress_sent
  keys : map sent_key c.sent ≡ c.dedup
  fresh : has_repeat c.dedup ≡ false
  parent_cap : IsWithin (progress_quota_limit c.policy false) c.parent_progress_sent
  child_cap : IsWithin (progress_quota_limit c.policy true) c.child_progress_sent

-- One more is within a cap that is not spent.
IsWithin-suc : (l : ℤ) (n : ℕ) → is_spent l n ≡ false → IsWithin l n → IsWithin l (suc n)
unfolding is_spent
IsWithin-suc (pos m) n h i = λ q. ground arith
IsWithin-suc (negsuc m) n h i = tt

-- What is sent goes on as it is counted.
sent_on : Event → Message → ChatContext → ChatContext
sent_on e m c = record c {
  dedup = (kind e.body, m.text) ∷ c.dedup;
  parent_progress_sent =
      (if not (kind e.body == "human.requested") && not (is_child_event e)
        then suc c.parent_progress_sent
        else c.parent_progress_sent);
  child_progress_sent =
      (if not (kind e.body == "human.requested") && is_child_event e
        then suc c.child_progress_sent
        else c.child_progress_sent);
  sent =
      record {
        kind = kind e.body;
        message = m;
        waiting = kind e.body == "human.requested";
        child = is_child_event e;
      }
      ∷ c.sent;
}

parent_cap-step :
    (w child : Bool) (limit : Bool → ℤ) (parents children : ℕ)
    → (not w && is_spent (limit child) (if child then children else parents)) ≡ false
    → IsWithin (limit false) parents
    → IsWithin (limit false) (if not w && not child then suc parents else parents)
parent_cap-step true child l m n h i = i
parent_cap-step false true l m n h i = i
parent_cap-step false false l m n h i = IsWithin-suc (l false) m h i

child_cap-step :
    (w child : Bool) (limit : Bool → ℤ) (parents children : ℕ)
    → (not w && is_spent (limit child) (if child then children else parents)) ≡ false
    → IsWithin (limit true) children
    → IsWithin (limit true) (if not w && child then suc children else children)
child_cap-step true child l m n h i = i
child_cap-step false false l m n h i = i
child_cap-step false true l m n h i = IsWithin-suc (l true) n h i

sent_on-IsCounted :
    (p : Policy) (e : Event) (m : Message) (c : ChatContext)
    → IsCounted p c
    → (not (kind e.body == "human.requested")
        && is_spent
            (progress_quota_limit c.policy (is_child_event e))
            (if is_child_event e then c.child_progress_sent else c.parent_progress_sent))
      ≡ false
    → was_sent (kind e.body) m.text c.dedup ≡ false
    → IsCounted p (sent_on e m c)
unfolding sent_on count_sent has_repeat
sent_on-IsCounted p e m c i h w = record {
  policy = i.policy;
  parent = rw i.parent refl;
  child = rw i.child refl;
  keys = ap (λ (l : List (String × String)). (kind e.body, m.text) ∷ l) i.keys;
  fresh = rw w i.fresh;
  parent_cap =
      parent_cap-step (kind e.body == "human.requested") (is_child_event e)
        (progress_quota_limit c.policy) c.parent_progress_sent c.child_progress_sent h i.parent_cap;
  child_cap =
      child_cap-step (kind e.body == "human.requested") (is_child_event e)
        (progress_quota_limit c.policy) c.parent_progress_sent c.child_progress_sent h i.child_cap;
}

dispatch_message-IsCounted :
    (p : Policy) (e : Event) (o : Option Message) (c : ChatContext)
    → IsCounted p c
    → IsCounted p (dispatch_message e o c)
unfolding dispatch_message sent_on
dispatch_message-IsCounted p e none c i = i
dispatch_message-IsCounted p e (some m) c i =
    choose
      (not (kind e.body == "human.requested")
        && is_spent (progress_quota_limit c.policy (is_child_event e))
            (if is_child_event e then c.child_progress_sent else c.parent_progress_sent))
      (was_sent (kind e.body) m.text c.dedup) (λ h w. sent_on-IsCounted p e m c i h w)
  where
    choose :
        (a b : Bool)
        → (a ≡ false → b ≡ false → IsCounted p (sent_on e m c))
        → IsCounted p (if a then c else (if b then c else sent_on e m c))
    choose true b f = i
    choose false true f = i
    choose false false f = f refl refl

-- A change that leaves what is counted.
IsCounted-same :
    (p : Policy) (c c' : ChatContext)
    → c'.policy ≡ c.policy
    → c'.sent ≡ c.sent
    → c'.dedup ≡ c.dedup
    → c'.parent_progress_sent ≡ c.parent_progress_sent
    → c'.child_progress_sent ≡ c.child_progress_sent
    → IsCounted p c
    → IsCounted p c'
IsCounted-same p c c' q s d m n i = record {
  policy = q ∙ i.policy;
  parent = ap (count_sent false) s ∙ i.parent ∙ sym m;
  child = ap (count_sent true) s ∙ i.child ∙ sym n;
  keys = ap (map sent_key) s ∙ i.keys ∙ sym d;
  fresh = ap has_repeat d ∙ i.fresh;
  parent_cap = rw q (rw m i.parent_cap);
  child_cap = rw q (rw n i.child_cap);
}

deliver-IsCounted :
    (p : Policy) (e : Event) (c : ChatContext) → IsCounted p c → IsCounted p (deliver e c)
unfolding deliver queued
deliver-IsCounted p e c i =
    IsCounted-same p c (deliver e c) (ground arith) (ground arith) (ground arith) (ground arith)
      (ground arith) i

dispatch_first-IsCounted :
    (p : Policy) (to_lower : String → String) (q : List Event) (c : ChatContext)
    → IsCounted p c
    → IsCounted p (dispatch_first to_lower q c)
unfolding dispatch_first dispatch
dispatch_first-IsCounted p to_lower [] c i = i
dispatch_first-IsCounted p to_lower (e ∷ q) c i =
    dispatch_message-IsCounted p e _ (record c { queue = q })
      (IsCounted-same p c (record c { queue = q }) refl refl refl refl refl i)

-- Nothing is sent and nothing is counted.
empty-IsCounted :
    (p : Policy) (c : ChatContext)
    → c.policy ≡ p
    → c.sent ≡ []
    → c.dedup ≡ []
    → c.parent_progress_sent ≡ 0
    → c.child_progress_sent ≡ 0
    → IsCounted p c
unfolding count_sent has_repeat
empty-IsCounted p c q s d m n = record {
  policy = q;
  parent = ap (count_sent false) s ∙ sym m;
  child = ap (count_sent true) s ∙ sym n;
  keys = ap (map sent_key) s ∙ sym d;
  fresh = ap has_repeat d;
  parent_cap = rw m (IsWithin-none (progress_quota_limit c.policy false));
  child_cap = rw n (IsWithin-none (progress_quota_limit c.policy true));
}
  where
    IsWithin-none : (l : ℤ) → IsWithin l 0
    IsWithin-none (pos k) = λ h. omega arith
    IsWithin-none (negsuc k) = tt

step-IsCounted :
    (p : Policy) (to_lower : String → String) (s : Step) (c : ChatContext)
    → IsCounted p c
    → IsCounted p (step to_lower s c)
unfolding step send_one stop reset
step-IsCounted p to_lower (Step.delivers e) c i = deliver-IsCounted p e c i
step-IsCounted p to_lower Step.sends c i = dispatch_first-IsCounted p to_lower c.queue c i
step-IsCounted p to_lower Step.stops c i = IsCounted-same p c (stop c) refl refl refl refl refl i
step-IsCounted p to_lower Step.resets c i = empty-IsCounted p (reset c) i.policy refl refl refl refl

run-IsCounted :
    (p : Policy) (to_lower : String → String) (ss : List Step) (c : ChatContext)
    → IsCounted p c
    → IsCounted p (run to_lower ss c)
unfolding run
run-IsCounted p to_lower [] c i = i
run-IsCounted p to_lower (s ∷ ss) c i =
    run-IsCounted p to_lower ss (step to_lower s c) (step-IsCounted p to_lower s c i)

new-IsCounted :
    (has_sender : Bool) (max_chars : ℤ) (p : Policy)
    → IsCounted p (new_chat_context has_sender max_chars p)
unfolding new_chat_context
new-IsCounted has_sender max_chars p =
    empty-IsCounted p (new_chat_context has_sender max_chars p) refl refl refl refl refl

count_sent-IsWithin :
    (p : Policy) (child : Bool) (c : ChatContext)
    → IsCounted p c
    → IsWithin (progress_quota_limit p child) (count_sent child c.sent)
count_sent-IsWithin p true c i = rw i.child (rw⁻¹ i.policy i.child_cap)
count_sent-IsWithin p false c i = rw i.parent (rw⁻¹ i.policy i.parent_cap)

-- Since the last reset, the progress messages of a turn that were sent are no more than the turn's
-- cap, and those of its children no more than theirs, where the cap is positive.
pub count_sent-run :
    (to_lower : String → String) (ss : List Step) (has_sender : Bool) (max_chars : ℤ) (p : Policy)
    (child : Bool) (n : ℕ)
    → progress_quota_limit p child ≡ pos (suc n)
    → count_sent child (run to_lower ss (new_chat_context has_sender max_chars p)).sent ≤ suc n
count_sent-run to_lower ss has_sender max_chars p child n h =
    let c : ChatContext = run to_lower ss (new_chat_context has_sender max_chars p) in
    let i : IsCounted p c =
      run-IsCounted p to_lower ss (new_chat_context has_sender max_chars p)
        (new-IsCounted has_sender max_chars p) in
    let w : IsWithin (pos (suc n)) (count_sent child c.sent) =
      subst (λ l. IsWithin l (count_sent child c.sent)) h (count_sent-IsWithin p child c i) in
    w (omega arith)

-- Since the last reset, no event's kind has been sent twice with the same text.
pub has_repeat-run :
    (to_lower : String → String) (ss : List Step) (has_sender : Bool) (max_chars : ℤ) (p : Policy)
    → has_repeat (map sent_key (run to_lower ss (new_chat_context has_sender max_chars p)).sent)
      ≡ false
has_repeat-run to_lower ss has_sender max_chars p =
    let c : ChatContext = run to_lower ss (new_chat_context has_sender max_chars p) in
    let i : IsCounted p c =
      run-IsCounted p to_lower ss (new_chat_context has_sender max_chars p)
        (new-IsCounted has_sender max_chars p) in
    ap has_repeat i.keys ∙ i.fresh

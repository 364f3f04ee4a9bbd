-- ===== src/Models/Status/Posting.antt =====
-- A user message posted into an open turn that the model has already answered in
-- (agent/core/models.py): the conversation is busy, whatever gates or children it waits for.
use luca_py.Base.{
  ℕ, zero, suc, ◌+◌, ◌≤◌, ◌<◌, String, ◌≡◌, refl, sym, ◌∙◌, Bool, true, false, Option, none, some,
  List, [], ◌∷◌, ◌++◌, arith, length, length-append, subst, drop, any, All-append,
}
use luca_py.Base.Dict.{Dict, get}
use luca_py.Models.Entries.{Entry, ChildConversation, is_user, is_assistant, as_child, as_cancel}
use luca_py.Models.Path.{
  is_material, conversational_turn_count, open_turn_step_count, entry_at, open_turn_index,
  last_assistant_before, last_assistant_index, open_turn_unseen_post, open_turn_unseen_material,
  select, open_turn_cancel_requested, open_turn_unresolved_children,
}
use luca_py.Models.Path.OpenTurn.{IsTurn, IsInside, open_turn_index_turn, entry_at-append}
use luca_py.Models.Path.Brackets.{entry_at-append_left}
use luca_py.Models.Session.{AgentSession, Conversation}
use luca_py.Models.Status.{
  ConversationStatus, ConversationRuntimeStatus, busy, open_turn_alone, parent_waits, open_status,
  derive_step, derive_status, get_conversation_status,
}
use luca_py.Models.Status.Termination.{IsRanked, derive_status_total}
use luca_py.Models.Status.Locality.{derive_status-append}

last_assistant_before-append_left :
    (turn rest : List String) (entries : Dict Entry) (n : ℕ)
    → n ≤ length turn
    → last_assistant_before (turn ++ rest) entries 0 n ≡ last_assistant_before turn entries 0 n
unfolding last_assistant_before
last_assistant_before-append_left turn rest entries zero h = refl
last_assistant_before-append_left turn rest entries (suc n) h = ground (
  arith,
  entry_at-append_left turn rest entries n h,
  last_assistant_before-append_left turn rest entries n (omega arith),
)

last_assistant_before_lt :
    (turn : List String) (entries : Dict Entry) (n i : ℕ)
    → last_assistant_before turn entries 0 n ≡ some i
    → i < n
unfolding last_assistant_before
last_assistant_before_lt turn entries zero i h = absurd (ground arith)
last_assistant_before_lt turn entries (suc n) i h =
    ground (arith, last_assistant_before_lt turn entries n i)

entry_at_posted :
    (turn : List String) (post : String) (entries : Dict Entry)
    → entry_at (turn ++ post ∷ []) entries (length turn) ≡ get entries post
unfolding entry_at
entry_at_posted turn post entries =
    let e : length turn + 0 ≡ length turn = omega arith in
    subst (λ n. entry_at (turn ++ post ∷ []) entries n ≡ get entries post) e
      (entry_at-append turn (post ∷ []) entries 0)

any-drop_last :
    (p : String → Bool) (xs : List String) (x : String) (n : ℕ)
    → p x ≡ true
    → n ≤ length xs
    → any p (drop n (xs ++ x ∷ [])) ≡ true
any-drop_last p [] x zero h le = rw h
any-drop_last p [] x (suc n) h le = absurd (omega arith)
any-drop_last p (y ∷ xs) x zero h le = ground (arith, any-drop_last p xs x zero h (omega arith))
any-drop_last p (y ∷ xs) x (suc n) h le = any-drop_last p xs x n h (omega arith)

select-append_none {ℓ} :
    {A : Type ℓ} (isa : Option Entry → Option A) (entries : Dict Entry) (xs : List String)
    (x : String)
    → isa (get entries x) ≡ none
    → select isa entries (xs ++ x ∷ []) ≡ select isa entries xs
unfolding select
select-append_none isa entries [] x h = rw (h, select)
select-append_none isa entries (y ∷ xs) x h = ground (arith, select-append_none isa entries xs x h)

pub user-IsInside : (e : Option Entry) → is_user e ≡ true → IsInside e
user-IsInside e h = ground arith

user_not_assistant : (e : Option Entry) → is_user e ≡ true → is_assistant e ≡ false
user_not_assistant e h = ground arith

user_not_child : (e : Option Entry) → is_user e ≡ true → as_child e ≡ none
user_not_child e h = ground arith

user_not_cancel : (e : Option Entry) → is_user e ≡ true → as_cancel e ≡ none
user_not_cancel e h = ground arith

user_is_material :
    (excluded : List String) (e : Option Entry) → is_user e ≡ true → is_material excluded e ≡ true
unfolding is_material
user_is_material excluded e h = ground arith

IsTurn-append :
    (turn : List String) (post : String) (entries : Dict Entry)
    → IsTurn entries turn
    → is_user (get entries post) ≡ true
    → IsTurn entries (turn ++ post ∷ [])
IsTurn-append [] post entries h u = absurd h
IsTurn-append (start ∷ rest) post entries h u =
    (h.0, All-append (λ id. IsInside (get entries id)) rest (post ∷ []) h.1 (user-IsInside _ u, tt))

module _ (turn : List String) (post : String) (entries : Dict Entry) (h : IsTurn entries turn)
    (u : is_user (get entries post) ≡ true) (i : ℕ)
    (answered : last_assistant_index turn entries 0 ≡ some i) where
  index_posted : open_turn_index (turn ++ post ∷ []) entries ≡ some 0
  index_posted =
      open_turn_index_turn (turn ++ post ∷ []) entries (IsTurn-append turn post entries h u)

  index_turn : open_turn_index turn entries ≡ some 0
  index_turn = open_turn_index_turn turn entries h

  last_assistant_posted : last_assistant_index (turn ++ post ∷ []) entries 0 ≡ some i
  unfolding last_assistant_index last_assistant_before
  last_assistant_posted =
      let e : length (turn ++ post ∷ []) ≡ suc (length turn) =
        omega (arith, length-append turn (post ∷ [])) in
      rw e (
        ground (
          arith,
          answered,
          entry_at_posted turn post entries,
          user_not_assistant (get entries post) u,
          last_assistant_before-append_left turn (post ∷ []) entries (length turn),
        ))

  answered_lt : i < length turn
  answered_lt =
      last_assistant_before_lt turn entries (length turn) i
        (unfold last_assistant_index in answered)

  unseen_post_posted : open_turn_unseen_post (turn ++ post ∷ []) entries ≡ true
  unfolding open_turn_unseen_post
  unseen_post_posted =
      rw (index_posted, open_turn_unseen_post)
        (rw (last_assistant_posted, open_turn_unseen_post)
          (any-drop_last (λ id. is_user (get entries id)) turn post (i + 1) u
            (omega (arith, answered_lt))))

  cancel_posted :
      open_turn_cancel_requested (turn ++ post ∷ []) entries
      ≡ open_turn_cancel_requested turn entries
  unfolding open_turn_cancel_requested
  cancel_posted =
      rw (index_posted, index_turn, open_turn_cancel_requested)
        (rw (select-append_none as_cancel entries turn post (user_not_cancel _ u)))

  children_posted :
      open_turn_unresolved_children (turn ++ post ∷ []) entries
      ≡ open_turn_unresolved_children turn entries
  unfolding open_turn_unresolved_children
  children_posted =
      rw (index_posted, index_turn, open_turn_unresolved_children)
        (rw (select-append_none as_child entries turn post (user_not_child _ u)))

  unseen_material_posted :
      (include : Bool) → open_turn_unseen_material (turn ++ post ∷ []) entries include ≡ true
  unfolding open_turn_unseen_material
  unseen_material_posted include =
      rw (index_posted, open_turn_unseen_material)
        (rw (last_assistant_posted, open_turn_unseen_material)
          (any-drop_last _ turn post (i + 1) (user_is_material _ _ u) (omega (arith, answered_lt))))

module _ (session : AgentSession) (turn : List String) (post : String)
    (h : IsTurn session.entries turn) (u : is_user (get session.entries post) ≡ true) (i : ℕ)
    (answered : last_assistant_index turn session.entries 0 ≡ some i)
    (uncancelled : open_turn_cancel_requested turn session.entries ≡ none) where
  open_status_posted :
      (derive : List String → Option ConversationStatus) (children : List ChildConversation)
      (s : ConversationStatus)
      → open_status derive session (turn ++ post ∷ []) children ≡ some s
      → s ≡ busy
  unfolding open_status open_turn_alone parent_waits
  open_status_posted derive [] s e =
      ground (arith, unseen_post_posted turn post session.entries h u i answered)
  open_status_posted derive (child ∷ rest) s e = ground (
    arith,
    unseen_post_posted turn post session.entries h u i answered,
    unseen_material_posted turn post session.entries h u i answered
        session.session_config.runtime_config.wake_parent_on_subagent_completion,
  )

  derive_status_posted :
      (fuel : ℕ) (s : ConversationStatus)
      → derive_status fuel session (turn ++ post ∷ []) ≡ some s
      → s ≡ busy
  unfolding derive_status derive_step
  derive_status_posted zero s e = absurd (ground arith)
  derive_status_posted (suc fuel) s e = ground (
    arith,
    index_posted turn post session.entries h u i answered,
    cancel_posted turn post session.entries h u i answered,
    uncancelled,
    open_status_posted (λ child. derive_status fuel session child)
        (open_turn_unresolved_children (turn ++ post ∷ []) session.entries) s,
  )

  -- A user message at the leaf of an open turn that holds an assistant message and no cancel
  -- request makes the conversation busy, whatever gated or parked executions and subagents the turn
  -- waits for. The links to subagents go down by rank, and the fuel passes the conversation's rank.
  pub post_wakes :
      (rank : String → ℕ)
      → IsRanked session rank
      → (fuel : ℕ) (id : String) (c : Conversation) (before : List String) → rank id < fuel
      → get session.conversations id ≡ some c
      → c.nodes ≡ before ++ (turn ++ post ∷ [])
      → (s : ConversationRuntimeStatus) × (get_conversation_status fuel session id ≡ some (some s))
        × (s.status ≡ busy)
  unfolding get_conversation_status
  post_wakes rank ranked fuel id c before low found path =
      let (s, e) = derive_status_total session rank ranked fuel id c low found in
      let e' : derive_status fuel session (before ++ (turn ++ post ∷ [])) ≡ some s =
        subst (λ nodes. derive_status fuel session nodes ≡ some s) path e in
      let e'' : derive_status fuel session (turn ++ post ∷ []) ≡ some s =
        sym (
          derive_status-append before (turn ++ post ∷ []) session
            (IsTurn-append turn post session.entries h u) fuel)
        ∙ e' in
      (
        record {
          status = s;
          turn_count = conversational_turn_count c.nodes session.entries;
          step_count = open_turn_step_count c.nodes session.entries;
        },
        ground arith,
        derive_status_posted fuel s e'',
      )

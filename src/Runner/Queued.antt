-- ===== src/Runner/Queued.antt =====
-- A message that `post_message` (agent/core/runner.py) accepts while no turn is open.
use text.Mathlib.Text.{◌==◌}
use luca_py.Base.{
  ℕ, suc, String, ◌≡◌, refl, ap, ◌∙◌, inl, inr, true, false, Option, none, some, List, [], ◌∷◌,
  ◌++◌, All, All-get_elem?, get_elem?, arith, Option-cases, last?, length,
}
use luca_py.Base.Dict.{Dict, get, put, get-put, get-put_self}
use luca_py.Models.Content.{ContentPart}
use luca_py.Models.Tools.{ToolSpec}
use luca_py.Models.Entries.{Entry, entry_id, is_user}
use luca_py.Models.Path.{entry_at, open_turn_index}
use luca_py.Models.Session.{AgentSession, Conversation}
use luca_py.Models.Status.{busy, derive_status}
use luca_py.Models.Status.Queueing.{post_queues, open_turn_before-agree}
use luca_py.Ledger.{
  ok, Ledger, ticked, advanced, next_id, now, append, file_entry, store_tool_spec, write_entry,
  write_conversation,
}
use luca_py.Ledger.Append.{append_found}
use luca_py.Runner.Posting.{
  Runner, posted, check_post, target_of, user_message, append_post, after_append, post_to,
  post_message, add_recheck,
}

-- A message has no tool spec to file.
file_entry_user :
    (digest : ToolSpec → String) (id : String) (e : Entry) (session : AgentSession)
    → is_user (some e) ≡ true
    → file_entry digest id e session ≡ (e, write_entry id e session)
unfolding file_entry store_tool_spec
file_entry_user digest id e session h = ground arith

entry_at-put :
    (nodes : List String) (entries : Dict Entry) (id : String) (e : Entry)
    → All (λ node. (id == node) ≡ false) nodes
    → (k : ℕ) → entry_at nodes (put entries id e) k ≡ entry_at nodes entries k
unfolding entry_at
entry_at-put nodes entries id e fresh k = elim (Option-cases (get_elem? nodes k)) [
  | inl h ↦ rw (h, entry_at) refl
  | inr (node, h) ↦
      rw (h, entry_at) (get-put entries id node e ∙ rw (All-get_elem? _ nodes k fresh h) refl)
]

module _ (digest : ToolSpec → String) (complete : String → Entry → Entry)
    (before_post : String → List ContentPart → List ContentPart) (r : Runner) (target : String)
    (c : Conversation) (found : get r.ledger.session.conversations target ≡ some c)
    (closed : open_turn_index c.nodes r.ledger.session.entries ≡ none)
    (fresh : All (λ node. (next_id r.ledger == node) ≡ false) c.nodes)
    (keeps : (e : Entry) → is_user (some e) ≡ true → is_user (some (complete target e)) ≡ true)
    (part : ContentPart) (parts : List ContentPart) where
  abbrev message : Entry
  message = complete target (
      user_message (before_post target (part ∷ parts)) (next_id r.ledger) (last? c.nodes)
        (now r.ledger))

  abbrev grown : Conversation
  grown = record c { nodes = c.nodes ++ next_id r.ledger ∷ []; updated_at = now r.ledger }

  abbrev session_after : AgentSession
  session_after =
      write_conversation target grown (write_entry (next_id r.ledger) message r.ledger.session)

  abbrev ledger_after : Ledger
  ledger_after = record (advanced (ticked r.ledger)) { session = session_after }

  message-IsUser : is_user (some message) ≡ true
  message-IsUser =
      keeps
        (user_message (before_post target (part ∷ parts)) (next_id r.ledger) (last? c.nodes)
          (now r.ledger))
        refl

  append-message :
      append digest target
        (λ id parent ts.
          complete target (user_message (before_post target (part ∷ parts)) id parent ts))
        r.ledger
      ≡ (ok message, ledger_after)
  append-message =
      append_found digest target _ r.ledger c found
      ∙ ap
          (λ p. (
            ok p.0,
            record (advanced (ticked r.ledger)) { session = write_conversation target grown p.1 },
          ))
          (file_entry_user digest (next_id r.ledger) message r.ledger.session message-IsUser)

  append_post_found : append_post digest complete before_post target (part ∷ parts) r ≡ (
    posted (entry_id message),
    record { ledger = ledger_after; recheck = add_recheck target r.recheck },
  )
  unfolding append_post after_append
  append_post_found = ap (after_append target r) append-message

  after_busy : (fuel : ℕ) → derive_status (suc fuel) session_after grown.nodes ≡ some busy
  unfolding write_conversation write_entry open_turn_index
  after_busy fuel =
      post_queues c.nodes (next_id r.ledger) session_after
        (rw (get-put_self r.ledger.session.entries (next_id r.ledger) message) message-IsUser)
        (open_turn_before-agree c.nodes session_after.entries r.ledger.session.entries
            (entry_at-put c.nodes r.ledger.session.entries (next_id r.ledger) message fresh)
            (length c.nodes)
          ∙ closed)
        fuel

  -- `post_message` on a conversation that is there and has no open turn, where its checks pass, the
  -- content is not empty, the new id is not on the path and the hooks keep a user message a user
  -- message. It returns the id of the message, which stands at the end of the path; the target is to
  -- be looked at again; and with any fuel but none the path then derives busy.
  pub post_message_queues :
      (fuel : ℕ) (conversation_id : Option String)
      → target_of conversation_id r.ledger.session ≡ target
      → check_post fuel r.ledger.session target ≡ some none
      → (r' : Runner) × (post_message digest complete before_post fuel
            (part ∷ parts)
            conversation_id
            r
          ≡ some (posted (entry_id message), r'))
        × (get r'.ledger.session.conversations target ≡ some grown)
        × (get r'.ledger.session.entries (next_id r.ledger) ≡ some message)
        × (r'.recheck ≡ add_recheck target r.recheck)
        × ((n : ℕ) → derive_status (suc n) r'.ledger.session grown.nodes ≡ some busy)
  unfolding post_message post_to write_conversation write_entry
  post_message_queues fuel conversation_id named passed = (
    record { ledger = ledger_after; recheck = add_recheck target r.recheck },
    rw (named, post_message) (rw (passed, post_to) (ap some append_post_found)),
    get-put_self r.ledger.session.conversations target grown,
    get-put_self r.ledger.session.entries (next_id r.ledger) message,
    refl,
    after_busy,
  )

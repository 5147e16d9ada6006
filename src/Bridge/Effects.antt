-- ===== src/Bridge/Effects.antt =====
-- What `js_env_cqjs_send` does to the tracker, and what it sends.
use cqjs.Prelude.{
  ℕ, ◌≤◌, Option, none, some, List, [], ◌∷◌, Bytes, codes, ltb, str_eq, str_eq_sound, if◌then◌else◌,
  Bool-cases, inl, inr, ◌≡◌, ◌≢◌, refl, arith, ap, ◌∙◌,
}
use mathlib.Core.Option
use cqjs.Json.{Response}
use cqjs.Dispatch.{Tracker, dt_find, complete_value, complete_error}
use cqjs.Dispatch.Requests.{IsValid, dt_resolve-IsValid, dt_reject-IsValid, dt_find_complete}
use cqjs.Server.{Property, message_or}
use cqjs.Bridge.{
  text_of, error_of, resolve_id, reject_id, on_response, on_error, event_response, send_event,
  js_env_cqjs_send,
}

resolve_id-IsValid :
    {dt : Tracker} → IsValid dt → (id result : Option Bytes) → IsValid (resolve_id dt id result)
unfolding resolve_id
resolve_id-IsValid v none result = v
resolve_id-IsValid v (some id) result = dt_resolve-IsValid v id _

reject_id-IsValid :
    {dt : Tracker} → IsValid dt → (id error : Option Bytes) → IsValid (reject_id dt id error)
unfolding reject_id
reject_id-IsValid v none error = v
reject_id-IsValid v (some id) error = dt_reject-IsValid v id _

on_response-IsValid :
    {dt : Tracker} → IsValid dt → (x : Option (Bytes → Property)) → IsValid (on_response dt x)
unfolding on_response
on_response-IsValid v none = v
on_response-IsValid v (some obj) = resolve_id-IsValid v _ _

on_error-IsValid :
    {dt : Tracker} → IsValid dt → (x : Option (Bytes → Property)) → IsValid (on_error dt x)
unfolding on_error
on_error-IsValid v none = v
on_error-IsValid v (some obj) = reject_id-IsValid v _ _

module _ (parse : Bytes → Option (Bytes → Property)) (dt : Tracker) where
  send_event-IsValid :
      (env_id name data_str : Bytes)
      → IsValid dt
      → IsValid (send_event parse env_id dt name data_str).0
  unfolding send_event
  send_event-IsValid env_id name data_str v = elim (Bool-cases (str_eq name (codes "response"))) [
    | inl is ↦ rw is (on_response-IsValid v _)
    | inr other ↦ rw other (elim (Bool-cases (str_eq name (codes "error"))) [
      | inl is ↦ rw is (on_error-IsValid v _)
      | inr event ↦ rw event v
    ])
  ]

  -- Whatever its arguments are, the call keeps a valid tracker valid.
  pub js_env_cqjs_send-IsValid :
      (bd : Option Bytes) (argc : ℕ) (name data_str : Option Bytes)
      → IsValid dt
      → IsValid (js_env_cqjs_send parse bd dt argc name data_str).0
  unfolding js_env_cqjs_send
  js_env_cqjs_send-IsValid none argc name data_str v = v
  js_env_cqjs_send-IsValid (some e) argc none data_str v = v
  js_env_cqjs_send-IsValid (some e) argc (some name) none v = v
  js_env_cqjs_send-IsValid (some e) argc (some name) (some data_str) v =
      elim (Bool-cases (ltb argc 2)) [
        | inl few ↦ rw few v
        | inr enough ↦ rw enough (send_event-IsValid e name data_str v)
      ]

  module _ (env_id : Bytes) (argc : ℕ) (enough : 2 ≤ argc) (data_str : Bytes) where
    abbrev pub call : Bytes → Tracker × List Response
    call name = js_env_cqjs_send parse (some env_id) dt argc (some name) (some data_str)

    call-send : (name : Bytes) → call name ≡ send_event parse env_id dt name data_str
    unfolding js_env_cqjs_send
    call-send name = ground (arith, enough)

    send-other :
        (name : Bytes)
        → name ≢ codes "response"
        → name ≢ codes "error"
        → call name ≡ (dt, event_response env_id name data_str ∷ [])
    send-other name not_response not_error =
        call-send name
        ∙ (unfold send_event in
            ground (
              arith,
              str_eq_sound name (codes "response"),
              str_eq_sound name (codes "error"),
              not_response,
              not_error,
            ))

    -- With at least two arguments, the event "response" completes the request that its data name with the
    -- given data, the event "error" completes it with the given error, neither changes what any other
    -- lookup finds nor sends anything; any other event leaves the tracker as it is and is sent, once.
    pub js_env_cqjs_send_lem :
        {obj : Bytes → Property} {id : Bytes}
        → parse data_str ≡ some obj
        → text_of (obj (codes "id")) ≡ some id
        → ((j : Bytes)
            → dt_find (call (codes "response")).0 j ≡ (
                if str_eq id j
                then Option.map
                    (complete_value
                      (some (message_or (text_of (obj (codes "data"))) (codes "null"))))
                    (dt_find dt j)
                else dt_find dt j))
          × ((j : Bytes)
              → dt_find (call (codes "error")).0 j ≡ (
                  if str_eq id j
                  then Option.map
                      (complete_error (some (error_of (text_of (obj (codes "error"))))))
                      (dt_find dt j)
                  else dt_find dt j))
          × ((call (codes "response")).1 ≡ [])
          × ((call (codes "error")).1 ≡ [])
          × ((name : Bytes)
              → name ≢ codes "response"
              → name ≢ codes "error"
              → call name ≡ (dt, event_response env_id name data_str ∷ []))
    js_env_cqjs_send_lem {obj} {id} parsed named = (
      (λ j. rw (call-send (codes "response")) (
          unfold send_event on_response in
          rw (parsed, on_response, named) (unfold resolve_id in (dt_find_complete dt id j _).0))),
      (λ j. rw (call-send (codes "error")) (
          unfold send_event on_error in
          rw (parsed, on_error, named) (unfold reject_id in (dt_find_complete dt id j _).1))),
      ap (λ x. x.1) (call-send (codes "response")) ∙ (unfold send_event in refl),
      ap (λ x. x.1) (call-send (codes "error")) ∙ (unfold send_event in refl),
      send-other,
    )

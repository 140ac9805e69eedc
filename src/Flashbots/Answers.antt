-- ===== src/Flashbots/Answers.antt =====
-- flashbots/client.go: how the answers of a Client depend on the status of a response.
use profit_monopoly.Prelude.{
  Bool-cases, List, Option, Option-cases, true, inl, inr, none, some, ℕ, ◌==◌, ◌≡◌, ==-eq, Run,
  bind_ok, ok, guard, guard_ok, refl, ◌>>=◌, ◌>>◌,
}
use profit_monopoly.Int.{ℤ}
use profit_monopoly.Flashbots.{
  Bundle, Params, ClientError, Relay, Response, get_stats, post, read_failed, send_bundle,
  send_params, simulate_bundle, status_failed, status_ok,
}

-- The relay with other statuses in its responses.
abbrev pub with_status : (ℕ → ℕ) → Option Response → Option Response
with_status f none = none
with_status f (some response) = some (record response { status = f response.status })

abbrev pub restatus : (ℕ → ℕ) → Relay → Relay
restatus f r = record r {
  transport = λ payload signature now. with_status f (r.transport payload signature now);
  body_reads = λ response. true;
}

-- Two calls that differ in the status of the response alone.
post-restatus {ℓ} :
    {A : Type ℓ} (f : ℕ → ℕ) (r : Relay) (params : Params) (now : ℕ)
    (k : List ℕ → Run ClientError A)
    → (post (restatus f r) params now >>= λ response. k response.body)
      ≡ (post r params now >>= λ response. k response.body)
unfolding post
post-restatus f r params now k = elim (Option-cases (r.marshal params)) [
  | inl n ↦ rw (post, post, n) refl
  | inr (payload, e) ↦ elim (Bool-cases r.url_parses) [
    | inr n ↦ rw (post, post, e, n) refl
    | inl t ↦ elim (Option-cases (r.sign payload)) [
      | inl n ↦ rw (post, post, e, t, n) refl
      | inr (signature, s) ↦ elim (Option-cases (r.transport payload signature now)) [
        | inl n ↦ rw (post, post, e, t, s, n) refl
        | inr (response, g) ↦ rw (post, post, e, t, s, g) refl
      ]
    ]
  ]
]

-- SendBundle succeeds only on a response that could be read and whose status is 200.
pub send_bundle_status :
    (r : Relay) (bundle : Bundle) (now : ℕ)
    → send_bundle r bundle now ≡ ok tt
    → (response : Response) × (post r (send_params bundle) now ≡ ok response)
      × (r.body_reads response ≡ true)
      × (response.status ≡ status_ok)
unfolding send_bundle
send_bundle_status r bundle now h =
    let finish = λ (response : Response).
      guard (r.body_reads response) read_failed
      >> guard (response.status == status_ok) (status_failed response.body) in
    let (response, posted, finished) = bind_ok (post r (send_params bundle) now) finish tt h in
    let (u, reads, status) =
      bind_ok (guard (r.body_reads response) read_failed)
        (λ _. guard (response.status == status_ok) (status_failed response.body)) tt finished in
    (
      response,
      posted,
      guard_ok (r.body_reads response) read_failed u reads,
      ==-eq response.status status_ok
          (guard_ok (response.status == status_ok) (status_failed response.body) tt status),
    )

-- Neither SimulateBundle nor GetStats depends on the status of the response, nor on whether its body
-- can be read to the end: what they answer, errors included, stays the same when the relay answers
-- other statuses.
pub simulate_bundle-restatus :
    (f : ℕ → ℕ) (r : Relay) (bundle : Bundle) (block_number : ℤ) (now : ℕ)
    → (simulate_bundle (restatus f r) bundle now ≡ simulate_bundle r bundle now)
      × (get_stats (restatus f r) block_number now ≡ get_stats r block_number now)
unfolding simulate_bundle get_stats
simulate_bundle-restatus f r bundle block_number now =
    (post-restatus f r _ now _, post-restatus f r _ now _)

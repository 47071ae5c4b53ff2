-- ===== src/Auth/Handshake.antt =====
-- Which responses client/auth.go accepts, and what they change.
use tunnel_agent.Base.{
  true, ◌≡◌, ◌≢◌, refl, ◌⊎◌, inl, inr, [], ◌==◌, arith, bytes_eq, Bool-cases, if◌then◌else◌, Option,
  none, ap,
}
use tunnel_agent.Auth.{Authenticator, AuthResponse, Json, handle_auth_response, accept_response}
use tunnel_agent.Errors.{GoError, Result, ok, err}
use tunnel_agent.Protocol.{Protocol, Frame}

module _ (p : Protocol) (json : Json) where
  -- A frame that the handshake accepts, with the response in it.
  pub record Accepts (frame : Frame) (resp : AuthResponse) : Type 0 where
    pub is_auth : frame.type ≡ p.frame_auth
    pub on_control : p.is_control_frame frame ≡ true
    pub acknowledged : p.is_ack frame ≡ true
    pub decodes : json.unmarshal frame.payload ≡ ok resp
    pub succeeded : resp.success ≡ true

  abbrev pub renamed : AuthResponse → Authenticator → Authenticator
  renamed resp a = if bytes_eq resp.agent_id [] then a else record a { agent_id = resp.agent_id }

  pub handle-Accepts :
      (frame : Frame) (resp : AuthResponse) (a : Authenticator)
      → Accepts frame resp
      → handle_auth_response p json frame a ≡ (renamed resp a, none)
  unfolding handle_auth_response
  handle-Accepts frame resp a h = ground arith

  -- What a response that came on an acknowledged authentication frame does.
  decoded :
      (frame : Frame) (a b : Authenticator) (e : Option GoError) (r : Result AuthResponse)
      → frame.type ≡ p.frame_auth
      → p.is_control_frame frame ≡ true
      → p.is_ack frame ≡ true
      → json.unmarshal frame.payload ≡ r
      → accept_response p json r a ≡ (b, e)
      → ((e ≡ none) × ((resp : AuthResponse) × Accepts frame resp × (b ≡ renamed resp a)))
        ⊎ ((e ≢ none) × (b ≡ a))
  unfolding accept_response
  decoded frame a b e (err x) t c k d q = inr (ground arith)
  decoded frame a b e (ok resp) t c k d q = elim (Bool-cases resp.success) [
    | inr no_success ↦ inr (ground arith)
    | inl success ↦ inl (
      ground arith,
      (
        resp,
        record { is_auth = t; on_control = c; acknowledged = k; decodes = d; succeeded = success },
        ground arith,
      ),
    )
  ]

  -- An authentication without an error is one whose frame is an acknowledged authentication frame
  -- on the control stream with a successful response; it changes the agent id alone, to the
  -- server's where that gives one. After an error nothing has changed.
  handle_auth_response_cases :
      (frame : Frame) (a b : Authenticator) (e : Option GoError)
      → handle_auth_response p json frame a ≡ (b, e)
      → ((e ≡ none) × ((resp : AuthResponse) × Accepts frame resp × (b ≡ renamed resp a)))
        ⊎ ((e ≢ none) × (b ≡ a))
  unfolding handle_auth_response
  handle_auth_response_cases frame a b e h = elim (Bool-cases (frame.type == p.frame_auth)) [
    | inr t ↦ inr (ground arith)
    | inl t ↦ elim (Bool-cases (p.is_control_frame frame)) [
      | inr t ↦ inr (ground arith)
      | inl c ↦ elim (Bool-cases (p.is_ack frame)) [
        | inr t ↦ inr (ground arith)
        | inl k ↦
            decoded frame a b e (json.unmarshal frame.payload) (ground arith) c k refl
              (ground arith)
      ]
    ]
  ]

  -- The handshake succeeds exactly on an acknowledged authentication frame on the control stream
  -- with a successful response. It then changes the agent id alone, to the server's where that
  -- gives one; when it fails nothing has changed.
  pub handle_auth_response_lem :
      (frame : Frame) (a : Authenticator)
      → let (b, e) = handle_auth_response p json frame a in
        ((resp : AuthResponse) → Accepts frame resp → (e ≡ none) × (b ≡ renamed resp a))
        × ((e ≡ none) → (resp : AuthResponse) × Accepts frame resp)
        × ((e ≢ none) → b ≡ a)
  handle_auth_response_lem frame a = (
    λ resp h.
        let done = handle-Accepts frame resp a h in
        (
          ap (λ (r : Authenticator × Option GoError). r.1) done,
          ap (λ (r : Authenticator × Option GoError). r.0) done,
        ),
    λ none_is. elim (handle_auth_response_cases frame a _ _ refl) [
      | inl (_, (resp, h, _)) ↦ (resp, h)
      | inr (ne, _) ↦ absurd (ne none_is)
    ],
    λ ne. elim (handle_auth_response_cases frame a _ _ refl) [
      | inl (e, _) ↦ absurd (ne e)
      | inr (_, same) ↦ same
    ],
  )

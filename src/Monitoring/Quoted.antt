-- ===== src/Monitoring/Quoted.antt =====
-- The answer of /health of cmd/agent/main.go where a message has a quote in it: the text of an error
-- of net/http quotes the URL.
use tunnel_agent.Base.{
  ℕ, ◌≡◌, refl, sym, ap, ◌∙◌, Bool, true, false, ◌||◌, List, [], ◌∷◌, ◌++◌, Option, none, some,
  append_assoc, arith, Bytes, codes, leb, ◌&&◌, get_elem?,
}
use tunnel_agent.Health.{
  HealthStatus, Check, HealthChecker, get_status, get_overall_status, get_all_checks,
}
use tunnel_agent.Monitoring.{
  Piece, literal, string, piece_text, status_text, fprintf, check_pieces, checks_pieces,
  health_pieces, health_answer,
}
use tunnel_agent.Monitoring.Answers.{status_text-IsPlainText}
use tunnel_agent.Monitoring.Checks.{start_pieces}
use tunnel_agent.Monitoring.Reader.{
  Token, word, Reading, between, in_word, broken, read_byte, read_bytes, tokens_read, json_tokens,
  IsPlainText, after_piece, after_pieces, Fits, AllFit, read_pieces, read_bytes-append,
  read_bytes-plain,
}

fprintf-append : (a b : List Piece) → fprintf (a ++ b) ≡ fprintf a ++ fprintf b
unfolding fprintf
fprintf-append [] b = refl
fprintf-append (p ∷ a) b =
    ap (λ (t : Bytes). piece_text p ++ t) (fprintf-append a b)
    ∙ sym (append_assoc (piece_text p) (fprintf a) (fprintf b))

read_bytes-broken : (s : Bytes) → read_bytes s broken ≡ broken
unfolding read_bytes
read_bytes-broken [] = refl
read_bytes-broken (c ∷ s) = read_bytes-broken s

-- A letter: no JSON token begins with one but `true`, `false` and `null`, and these do not stand
-- behind a string.
abbrev pub is_letter : ℕ → Bool
is_letter c = leb b'a' c && leb c b'z' || leb b'A' c && leb c b'Z'

letter_breaks : (c : ℕ) (ts : List Token) → is_letter c ≡ true → read_byte c (between ts) ≡ broken
letter_breaks c ts h = ground arith

letter_behind :
    (b : Bytes) (c : ℕ) (a : Bytes) (ts : List Token)
    → is_letter c ≡ true
    → read_bytes (b'"' ∷ c ∷ b) (in_word a ts) ≡ broken
unfolding read_bytes
letter_behind b c a ts l = ap (read_bytes b) (letter_breaks c (word a ∷ ts) l) ∙ read_bytes-broken b

-- A string with a quote in it and a letter behind that.
quoted_breaks :
    (a b : Bytes) (c : ℕ) (ts : List Token)
    → IsPlainText a
    → is_letter c ≡ true
    → read_bytes (a ++ b'"' ∷ c ∷ b) (in_word [] ts) ≡ broken
quoted_breaks a b c ts h l =
    read_bytes-append a (b'"' ∷ c ∷ b) (in_word [] ts)
    ∙ ap (read_bytes (b'"' ∷ c ∷ b)) (read_bytes-plain a [] ts h)
    ∙ letter_behind b c a ts l

-- Pieces that fit up to a string that breaks the reader.
fprintf_breaks :
    (ps rest : List Piece) (text : Bytes) (r : Reading)
    → AllFit ps r
    → read_bytes text (after_pieces ps r) ≡ broken
    → read_bytes (fprintf (ps ++ string text ∷ rest)) r ≡ broken
fprintf_breaks ps rest text r fits breaks =
    ap (λ (t : Bytes). read_bytes t r) (fprintf-append ps (string text ∷ rest))
    ∙ read_bytes-append (fprintf ps) (fprintf (string text ∷ rest)) r
    ∙ ap (read_bytes (fprintf (string text ∷ rest))) (read_pieces ps r fits)
    ∙ (unfold fprintf in
        read_bytes-append text (fprintf rest) (after_pieces ps r)
        ∙ ap (read_bytes (fprintf rest)) breaks
        ∙ read_bytes-broken (fprintf rest))

-- What is printed before the message of the first check.
abbrev before_message : HealthStatus → Bytes → HealthStatus → List Piece
before_message overall name status =
    start_pieces overall
    ++ literal (codes "\n    \"")
      ∷ string name
      ∷ literal (codes "\": {\n      \"status\": \"")
      ∷ string (status_text status)
      ∷ literal (codes "\",\n      \"message\": \"")
      ∷ []

before_message-AllFit :
    (overall : HealthStatus) (name : Bytes) (status : HealthStatus)
    → IsPlainText name
    → AllFit (before_message overall name status) (between [])
unfolding AllFit Fits after_piece read_bytes
before_message-AllFit overall name status n = (
  tt,
  (
    status_text-IsPlainText overall,
    (tt, (tt, (n, (tt, (status_text-IsPlainText status, (tt, tt)))))),
  ),
)

at_message :
    (overall : HealthStatus) (name : Bytes) (status : HealthStatus) (text : Bytes)
    → ((ts : List Token) → read_bytes text (in_word [] ts) ≡ broken)
    → read_bytes text (after_pieces (before_message overall name status) (between [])) ≡ broken
unfolding after_pieces after_piece read_bytes
at_message overall name status text breaks = breaks _

module _ (format_time : ℕ → Bytes) where
  message_breaks :
      (hc : HealthChecker) (name a b : Bytes) (c check : ℕ) (rest : List (Bytes × ℕ)) (k : Check)
      → IsPlainText name
      → IsPlainText a
      → is_letter c ≡ true
      → k.message ≡ a ++ b'"' ∷ c ∷ b
      → get_elem? hc.cells check ≡ some k
      → get_all_checks hc ≡ (name, check) ∷ rest
      → read_bytes (fprintf (health_pieces format_time hc)) (between []) ≡ broken
  unfolding health_pieces checks_pieces
  message_breaks hc name a b c check rest k n h l m held first =
      let overall = get_overall_status hc in
      let closing : List Piece = literal (codes "\n  }\n}") ∷ [] in
      let got : get_status check hc ≡ some (k.status, k.message, k.last_check) =
        rw (get_status, held) refl in
      let shape : health_pieces format_time hc
          ≡ before_message overall name k.status
            ++ string k.message
              ∷ literal (codes "\",\n      \"last_check\": \"")
              ∷ string (format_time k.last_check)
              ∷ literal (codes "\"\n    }")
              ∷ (checks_pieces format_time hc false rest ++ closing) =
        ap
          (λ (cs : List (Bytes × ℕ)).
            start_pieces overall ++ (checks_pieces format_time hc true cs ++ closing))
          first
        ∙ ap
            (λ (o : Option (HealthStatus × Bytes × ℕ)).
              start_pieces overall
              ++ ((check_pieces format_time name o ++ checks_pieces format_time hc false rest)
                  ++ closing))
            got in
      ap (λ (ps : List Piece). read_bytes (fprintf ps) (between [])) shape
      ∙ fprintf_breaks (before_message overall name k.status) _ k.message (between [])
          (before_message-AllFit overall name k.status n)
          (at_message overall name k.status k.message
            (λ ts. ap (λ (t : Bytes). read_bytes t (in_word [] ts)) m ∙ quoted_breaks a b c ts h l))

  -- If a check whose message has a quote with a letter behind it comes first in the map's order, the
  -- reader of JSON tokens fails on the answer of /health.
  pub health_answer_quoted :
      (hc : HealthChecker) (name a b : Bytes) (c check : ℕ) (rest : List (Bytes × ℕ)) (k : Check)
      → IsPlainText name
      → IsPlainText a
      → is_letter c ≡ true
      → k.message ≡ a ++ b'"' ∷ c ∷ b
      → get_elem? hc.cells check ≡ some k
      → get_all_checks hc ≡ (name, check) ∷ rest
      → json_tokens (health_answer format_time hc) ≡ none
  unfolding json_tokens health_answer
  health_answer_quoted hc name a b c check rest k n h l m held first =
      ap tokens_read (message_breaks hc name a b c check rest k n h l m held first)

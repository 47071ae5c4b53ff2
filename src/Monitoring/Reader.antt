-- ===== src/Monitoring/Reader.antt =====
-- A reader of JSON tokens, and what it reads of the pieces that cmd/agent/main.go prints. It knows
-- no escapes and none of `true`, `false` and `null`, since the printer writes none of them.
use tunnel_agent.Base.{
  ℕ, ◌+◌, ◌≤◌, ◌≡◌, ◌≢◌, refl, sym, ap, ◌∙◌, Bool, true, false, ◌&&◌, ◌||◌, List, [], ◌∷◌, ◌++◌,
  Option, none, some, reverse, append-nil, append_assoc, arith, Bytes, leb, ◌==◌, All,
  signed_decimal, decimal-BeginsDigit, decimal-All, signed, ℤ, pos, negsuc, if◌then◌else◌,
}
use tunnel_agent.Monitoring.{Piece, literal, number, string, piece_text, fprintf}
use tunnel_agent.Text.{is_space}

-- A mark is one of `{`, `}`, `:` and `,`; a number is kept as its text.
pub data Token : Type 0 where
  mark : ℕ → Token
  word : Bytes → Token
  numeral : Bytes → Token

-- Between tokens, in a string, in a number, or past an error. The tokens read come newest first.
pub data Reading : Type 0 where
  between : List Token → Reading
  in_word : Bytes → List Token → Reading
  in_numeral : Bytes → List Token → Reading
  broken : Reading

abbrev pub in_number : ℕ → Bool
in_number c = c == b'-' || leb b'0' c && leb c b'9'

abbrev pub is_mark : ℕ → Bool
is_mark c = c == b'{' || c == b'}' || c == b':' || c == b','

abbrev pub token_start : ℕ → List Token → Reading
token_start c ts =
    if is_space c
    then between ts
    else if c == b'"'
    then in_word [] ts
    else if in_number c
    then in_numeral (c ∷ []) ts
    else if is_mark c
    then between (mark c ∷ ts)
    else broken

-- What may stand in a string as it is.
abbrev pub is_plain : ℕ → Bool
is_plain c = leb 32 c && (if c == b'"' then false else if c == b'\\' then false else true)

abbrev pub read_byte : ℕ → Reading → Reading
read_byte c (between ts) = token_start c ts
read_byte c (in_word text ts) =
    if c == b'"'
    then between (word text ∷ ts)
    else if is_plain c
    then in_word (text ++ c ∷ []) ts
    else broken
read_byte c (in_numeral text ts) =
    if in_number c then in_numeral (text ++ c ∷ []) ts else token_start c (numeral text ∷ ts)
read_byte c broken = broken

unfoldable pub read_bytes : Bytes → Reading → Reading
read_bytes [] r = r
read_bytes (c ∷ s) r = read_bytes s (read_byte c r)

abbrev pub tokens_read : Reading → Option (List Token)
tokens_read (between ts) = some (reverse ts)
tokens_read (in_numeral text ts) = some (reverse (numeral text ∷ ts))
tokens_read (in_word text ts) = none
tokens_read broken = none

-- The tokens of a text; `none` if it does not split into tokens.
unfoldable pub json_tokens : Bytes → Option (List Token)
unfolding read_bytes
json_tokens text = tokens_read (read_bytes text (between []))

-- A text that needs no escape.
abbrev pub IsPlainText : Bytes → Type 0
IsPlainText = All (λ (c : ℕ). is_plain c ≡ true)

pub read_bytes-append :
    (a b : Bytes) (r : Reading) → read_bytes (a ++ b) r ≡ read_bytes b (read_bytes a r)
unfolding read_bytes
read_bytes-append [] b r = refl
read_bytes-append (c ∷ a) b r = read_bytes-append a b (read_byte c r)

plain_byte : (c : ℕ) → is_plain c ≡ true → (c == b'"') ≡ false
plain_byte c h = ground arith

pub read_bytes-plain :
    (s text : Bytes) (ts : List Token)
    → IsPlainText s
    → read_bytes s (in_word text ts) ≡ in_word (text ++ s) ts
unfolding read_bytes
read_bytes-plain [] text ts h = ap (λ (b : Bytes). in_word b ts) (sym (append-nil text))
read_bytes-plain (c ∷ s) text ts h =
    ap (read_bytes s) (step c (plain_byte c h.0) h.0)
    ∙ read_bytes-plain s (text ++ c ∷ []) ts h.1
    ∙ ap (λ (b : Bytes). in_word b ts) (append_assoc text (c ∷ []) s)
  where
    step :
        (c : ℕ)
        → (c == b'"') ≡ false
        → is_plain c ≡ true
        → read_byte c (in_word text ts) ≡ in_word (text ++ c ∷ []) ts
    step c q p =
        ap
          (λ (b : Bool).
            if b
            then between (word text ∷ ts)
            else if is_plain c
            then in_word (text ++ c ∷ []) ts
            else broken)
          q
        ∙ ap (λ (b : Bool). if b then in_word (text ++ c ∷ []) ts else broken) p

-- A text of digits and signs.
abbrev IsNumeral : Bytes → Type 0
IsNumeral = All (λ (c : ℕ). in_number c ≡ true)

read_bytes-numeral :
    (s text : Bytes) (ts : List Token)
    → IsNumeral s
    → read_bytes s (in_numeral text ts) ≡ in_numeral (text ++ s) ts
unfolding read_bytes
read_bytes-numeral [] text ts h = ap (λ (b : Bytes). in_numeral b ts) (sym (append-nil text))
read_bytes-numeral (c ∷ s) text ts h =
    ap (read_bytes s) (rw h.0 refl)
    ∙ read_bytes-numeral s (text ++ c ∷ []) ts h.1
    ∙ ap (λ (b : Bytes). in_numeral b ts) (append_assoc text (c ∷ []) s)

starts_numeral :
    (c : ℕ) (ts : List Token) → in_number c ≡ true → token_start c ts ≡ in_numeral (c ∷ []) ts
starts_numeral c ts h = ground arith

read_bytes-number :
    (s : Bytes) (ts : List Token)
    → IsNumeral s
    → s ≢ []
    → read_bytes s (between ts) ≡ in_numeral s ts
unfolding read_bytes
read_bytes-number [] ts h some_byte = absurd (some_byte refl)
read_bytes-number (c ∷ s) ts h some_byte =
    ap (read_bytes s) (starts_numeral c ts h.0) ∙ read_bytes-numeral s (c ∷ []) ts h.1

is_digit : (d : ℕ) → d ≤ 9 → in_number (b'0' + d) ≡ true
is_digit d h = ground arith

signed_decimal-IsNumeral : (z : ℤ) → IsNumeral (signed_decimal z)
unfolding signed_decimal
signed_decimal-IsNumeral (pos n) = decimal-All (λ (c : ℕ). in_number c ≡ true) is_digit n
signed_decimal-IsNumeral (negsuc n) =
    (refl, decimal-All (λ (c : ℕ). in_number c ≡ true) is_digit (n + 1))

signed_decimal-nonempty : (z : ℤ) → signed_decimal z ≢ []
unfolding signed_decimal
signed_decimal-nonempty (pos n) e = let b = decimal-BeginsDigit n in cons_nil (sym b.is ∙ e)
  where
    cons_nil : {c : ℕ} {s : Bytes} → c ∷ s ≡ [] → ⊥
    cons_nil q = cc
signed_decimal-nonempty (negsuc n) e = cc

-- What a piece does to the reader, in a place where it fits.
unfoldable pub after_piece : Piece → Reading → Reading
unfolding read_bytes
after_piece (literal text) r = read_bytes text r
after_piece (number x) (between ts) = in_numeral (signed_decimal (signed x)) ts
after_piece (number x) _ = broken
after_piece (string s) (in_word text ts) = in_word (text ++ s) ts
after_piece (string s) _ = broken

unfoldable pub after_pieces : List Piece → Reading → Reading
unfolding after_piece
after_pieces [] r = r
after_pieces (p ∷ ps) r = after_pieces ps (after_piece p r)

-- A number stands between tokens, and a text that needs no escape in a string.
unfoldable pub Fits : Piece → Reading → Type 0
Fits (literal text) r = Unit
Fits (number x) (between ts) = Unit
Fits (number x) _ = ⊥
Fits (string s) (in_word text ts) = IsPlainText s
Fits (string s) _ = ⊥

unfoldable pub AllFit : List Piece → Reading → Type 0
unfolding Fits after_piece
AllFit [] r = Unit
AllFit (p ∷ ps) r = Fits p r × AllFit ps (after_piece p r)

read_piece : (p : Piece) (r : Reading) → Fits p r → read_bytes (piece_text p) r ≡ after_piece p r
unfolding after_piece Fits piece_text
read_piece (literal text) r h = refl
read_piece (number x) (between ts) h =
    read_bytes-number (signed_decimal (signed x)) ts (signed_decimal-IsNumeral (signed x))
      (signed_decimal-nonempty (signed x))
read_piece (number x) (in_word text ts) h = absurd h
read_piece (number x) (in_numeral text ts) h = absurd h
read_piece (number x) broken h = absurd h
read_piece (string s) (in_word text ts) h = read_bytes-plain s text ts h
read_piece (string s) (between ts) h = absurd h
read_piece (string s) (in_numeral text ts) h = absurd h
read_piece (string s) broken h = absurd h

pub read_pieces :
    (ps : List Piece) (r : Reading) → AllFit ps r → read_bytes (fprintf ps) r ≡ after_pieces ps r
unfolding fprintf after_pieces AllFit
read_pieces [] r h = unfold read_bytes in refl
read_pieces (p ∷ ps) r h =
    read_bytes-append (piece_text p) (fprintf ps) r
    ∙ ap (read_bytes (fprintf ps)) (read_piece p r h.0)
    ∙ read_pieces ps (after_piece p r) h.1

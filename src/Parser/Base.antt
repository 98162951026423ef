-- ===== src/Parser/Base.antt =====
-- pktbaffle/src/parser.rs: the state of the parser, its errors and the token helpers.
-- A method of `&mut self` takes the state and returns the new one, or an error. Two errors are not of
-- the source: `out_of_fuel` ends a loop that the model has cut, and `panicked` stands for an index out
-- of bounds. After an error the state is gone; every caller passes the error on.
use pktbaffle.Prelude.{
  ℕ, ◌+◌, ◌-◌, ◌^◌, Bool, true, false, List, Option, some, none, ltb, length, get_elem?,
  if◌then◌else◌,
}
use pktbaffle.Lexer.Token.{Token, Spanned, token_eq}
use pktbaffle.Prelude.Ints.{ℤ}

-- One constructor for each message.
pub data ParseError : Type 0 where
  trailing_input : Option Token → ParseError
  expected_token : Token → Option Token → ParseError
  nested_too_deeply : ParseError
  expected_primitive : Option Token → ParseError
  session_id_out_of_range : ℕ → ParseError
  gateway_unsupported short_address : ParseError
  expected_after_ether expected_after_direction : Option Token → ParseError
  expected_port_after : Token → Option Token → ParseError
  mask_syntax_for_networks_only : ParseError
  prefix_len_out_of_range : (max n : ℕ) → ParseError
  expected_prefix_len : (slash : ℕ) → ParseError
  expected_network : Option Token → ParseError
  expected_ipv4_network : Option Token → ParseError
  non_network_bits net_range_unsupported expected_netmask : ParseError
  negative_offset : ℤ → ParseError
  invalid_size : Option Token → ParseError
  expected_cmpop expected_ip expected_mac expected_integer : Option Token → ParseError
  proto_out_of_range integer_too_large port_out_of_range : ParseError
  offset_out_of_range : ℤ → ParseError
  shift_out_of_range offset_overflow offset_division_by_zero offset_too_deep : ParseError
  out_of_fuel panicked : ParseError

pub data Result {ℓ} (A : Type ℓ) : Type ℓ where
  ok : A → Result A
  err : ParseError → Result A

pub record Parser : Type 0 where
  pub tokens : List Spanned
  pub pos : ℕ
  pub depth : ℕ

abbrev pub P : Type 0 → Type 0
P A = Parser → Result (A × Parser)

infixl 5 ◌>>=◌ ◌>>◌
abbrev pub ◌>>=◌ : {A B : Type 0} → P A → (A → P B) → P B
◌>>=◌ m f s = elim (m s) [ ok (a, s') ↦ f a s' | err e ↦ err e ]

abbrev pub ◌>>◌ : {A B : Type 0} → P A → P B → P B
◌>>◌ m k s = elim (m s) [ ok (a, s') ↦ k s' | err e ↦ err e ]

abbrev pub pure : {A : Type 0} → A → P A
pure a s = ok (a, s)

abbrev pub throw : {A : Type 0} → ParseError → P A
throw e s = err e

-- Rust's `ok_or_else` with `?`.
abbrev pub or_throw : {A : Type 0} → ParseError → Option A → P A
or_throw e (some a) s = ok (a, s)
or_throw e none s = err e

abbrev pub max_paren_depth : ℕ
max_paren_depth = 9995

abbrev pub max_offset_depth : ℕ
max_offset_depth = 127

abbrev pub offset_paren_cost : ℕ
offset_paren_cost = 4

abbrev pub token_at : List Spanned → ℕ → Option Token
token_at ts i = elim (get_elem? ts i) [ some x ↦ some x.token | none ↦ none ]

unfoldable pub cur_tok : P (Option Token)
cur_tok s = ok (token_at s.tokens s.pos, s)

unfoldable pub peek_tok : ℕ → P (Option Token)
peek_tok lookahead s = ok (token_at s.tokens (s.pos + lookahead), s)

abbrev pub moved : Parser → Parser
moved s = record s { pos = s.pos + 1 }

unfoldable pub advance : P (Option Token)
advance s = elim (token_at s.tokens s.pos) [ some t ↦ ok (some t, moved s) | none ↦ ok (none, s) ]

-- `tok == Some(expected)`.
abbrev pub is_token : Token → Option Token → Bool
is_token expected (some t) = token_eq t expected
is_token expected none = false

unfoldable pub cur_is : Token → P Bool
unfolding token_eq
cur_is expected s = ok (is_token expected (token_at s.tokens s.pos), s)

unfoldable pub eat : Token → P Bool
unfolding cur_is
eat expected = do
  found ← cur_is expected
  (λ s. if found then ok (true, moved s) else ok (false, s))

unfoldable pub expect : Token → P (Unit {0})
unfolding eat cur_tok
expect expected = do
  found ← eat expected
  got ← cur_tok
  if found then pure tt else throw (expected_token expected got)

-- The fuel of a loop that takes a token in every turn.
abbrev pub turns : P ℕ
turns s = ok (length s.tokens + 1, s)

abbrev pub number : Option Token → P ℕ
number (some (Token.num n)) = if ltb (2 ^ 32 - 1) n then throw integer_too_large else pure n
number t = throw (expected_integer t)

unfoldable pub parse_u32 : P ℕ
unfolding advance
parse_u32 = do t ← advance; number t

unfoldable pub parse_u16 : P ℕ
unfolding parse_u32
parse_u16 = do n ← parse_u32; if ltb 0xffff n then throw port_out_of_range else pure n

-- ===== src/Pointer/RoundTrip.antt =====
-- src/lib.rs `parse_pointer` on pointers spelled with src/event.rs `escape_token`.
use mathlib.Core.Path.{ap₂}
use jawohl.Prelude.{
  ℕ, ◌≡◌, refl, ap, false, ◌||◌, List, [], ◌∷◌, ◌++◌, map, append_assoc, append-nil, some, arith,
  ◌==◌, if◌then◌else◌, Bytes, codes,
}
use jawohl.Pointer.{
  contains_byte, replace_byte, replace_pair, escape_token, unescape_token, split_slash,
  parse_pointer,
}

-- `/` and the escaped token, for each token.
unfoldable pub pointer_of : List Bytes → Bytes
pointer_of [] = []
pointer_of (t ∷ ts) = b'/' ∷ (escape_token t ++ pointer_of ts)

-- The escape of a token, byte by byte; the first half of it leaves `/` alone.
abbrev escaped : Bytes → Bytes
escaped [] = []
escaped (b ∷ bs) =
    (if b == b'~' then codes "~0" else if b == b'/' then codes "~1" else b ∷ []) ++ escaped bs

abbrev tilde_escaped : Bytes → Bytes
tilde_escaped [] = []
tilde_escaped (b ∷ bs) = (if b == b'~' then codes "~0" else b ∷ []) ++ tilde_escaped bs

replaced-escaped :
    (t : Bytes) → replace_byte b'/' (codes "~1") (replace_byte b'~' (codes "~0") t) ≡ escaped t
unfolding replace_byte
replaced-escaped [] = refl
replaced-escaped (b ∷ bs) = ground (arith, replaced-escaped bs)

plain-escaped : (t : Bytes) → (contains_byte b'~' t || contains_byte b'/' t) ≡ false → escaped t ≡ t
unfolding contains_byte
plain-escaped [] h = refl
plain-escaped (b ∷ bs) h = ground (arith, plain-escaped bs)

escape_token-escaped : (t : Bytes) → escape_token t ≡ escaped t
unfolding escape_token
escape_token-escaped t = ground (arith, replaced-escaped t, plain-escaped t)

replace_pair-skip :
    (a c by x : ℕ) (bs : Bytes)
    → (x == a) ≡ false
    → replace_pair a c by (x ∷ bs) ≡ x ∷ replace_pair a c by bs
unfolding replace_pair
replace_pair-skip a c by x [] h = refl
replace_pair-skip a c by x (y ∷ bs) h = ground arith

-- An escape of two bytes, at the front.
replace_pair-front :
    (a c by : ℕ) (bs : Bytes) → replace_pair a c by (a ∷ c ∷ bs) ≡ by ∷ replace_pair a c by bs
unfolding replace_pair
replace_pair-front a c by bs = ground arith

slashes-restored : (t : Bytes) → replace_pair b'~' b'1' b'/' (escaped t) ≡ tilde_escaped t
unfolding replace_pair
slashes-restored [] = refl
slashes-restored (b ∷ bs) = ground (
  arith,
  slashes-restored bs,
  replace_pair-skip b'~' b'1' b'/' b (escaped bs),
  replace_pair-skip b'~' b'1' b'/' b'0' (escaped bs),
)

tildes-restored : (t : Bytes) → replace_pair b'~' b'0' b'~' (tilde_escaped t) ≡ t
unfolding replace_pair
tildes-restored [] = refl
tildes-restored (b ∷ bs) =
    ground (arith, tildes-restored bs, replace_pair-skip b'~' b'0' b'~' b (tilde_escaped bs))

-- Unescaping undoes the escape, whatever bytes the token holds.
pub unescape-escape_token : (t : Bytes) → unescape_token (escape_token t) ≡ t
unfolding unescape_token
unescape-escape_token t = rw (escape_token-escaped t, slashes-restored t) (tildes-restored t)

-- No `/` stands in an escaped token.
contains-slash-escaped : (t : Bytes) → contains_byte b'/' (escaped t) ≡ false
unfolding contains_byte
contains-slash-escaped [] = refl
contains-slash-escaped (b ∷ bs) = ground (arith, contains-slash-escaped bs)

contains-slash-escape_token : (t : Bytes) → contains_byte b'/' (escape_token t) ≡ false
contains-slash-escape_token t = rw (escape_token-escaped t) (contains-slash-escaped t)

split-token : (e : Bytes) → contains_byte b'/' e ≡ false → split_slash e ≡ e ∷ []
unfolding contains_byte split_slash
split-token [] h = refl
split-token (b ∷ bs) h = ground (arith, split-token bs)

split-token_then :
    (e rest : Bytes)
    → contains_byte b'/' e ≡ false
    → split_slash (e ++ b'/' ∷ rest) ≡ e ∷ split_slash rest
unfolding contains_byte split_slash
split-token_then [] rest h = refl
split-token_then (b ∷ bs) rest h = ground (arith, split-token_then bs rest)

split-pointer_of :
    (t : Bytes) (ts : List Bytes)
    → map unescape_token (split_slash (escape_token t ++ pointer_of ts)) ≡ t ∷ ts
unfolding pointer_of
split-pointer_of t [] = rw append-nil (
    rw (split-token (escape_token t) (contains-slash-escape_token t))
      (ap (λ (u : Bytes). u ∷ []) (unescape-escape_token t)))
split-pointer_of t (u ∷ ts) =
    rw
      (split-token_then (escape_token t) (escape_token u ++ pointer_of ts)
        (contains-slash-escape_token t))
      (ap₂ {C = List Bytes} (λ (v : Bytes) vs. v ∷ vs) (unescape-escape_token t)
        (split-pointer_of u ts))

-- Whatever the tokens hold, the pointer that spells them parses to them again.
pub parse-pointer_of : (ts : List Bytes) → parse_pointer (pointer_of ts) ≡ some ts
unfolding parse_pointer pointer_of
parse-pointer_of [] = refl
parse-pointer_of (t ∷ ts) = ap some (split-pointer_of t ts)

pub pointer_of-append :
    (ts : List Bytes) (u : Bytes)
    → pointer_of (ts ++ u ∷ []) ≡ pointer_of ts ++ b'/' ∷ escape_token u
unfolding pointer_of
pointer_of-append [] u = rw append-nil
pointer_of-append (t ∷ ts) u = simp (pointer_of-append ts u, append_assoc)

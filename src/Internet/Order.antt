-- ===== src/Internet/Order.antt =====
-- The comparison operators of InternetAddress (socketapi/internetaddress.icc).
pub mod Laws
use socketapi.Prelude.{
  ℕ, ◌<◌, ◌≡◌, refl, sym, ap, ap₂, subst, ◌∙◌, Bool, true, false, not, ◌&&◌, ◌||◌, List, [], ◌∷◌,
  arith, ltb, lt→ltb, ◌==◌, if◌then◌else◌, length, All,
}
use socketapi.Internet.{Host, InternetAddress, words, swap16, IsHost, IsWord}

-- The loop of operator<: the first pair of words that differ decides, else the rest.
unfoldable pub lt_words : List ℕ → List ℕ → Bool → Bool
lt_words [] ys rest = rest
lt_words (a ∷ xs) [] rest = rest
lt_words (a ∷ xs) (b ∷ ys) rest =
    let more = lt_words xs ys rest in
    if ltb (swap16 a) (swap16 b) then true else if ltb (swap16 b) (swap16 a) then false else more

unfoldable pub lt_address : InternetAddress → InternetAddress → Bool
lt_address a b = lt_words (words a.host) (words b.host) (ltb (swap16 a.port) (swap16 b.port))

-- The loop of operator>.
unfoldable pub gt_words : List ℕ → List ℕ → Bool → Bool
gt_words [] ys rest = rest
gt_words (a ∷ xs) [] rest = rest
gt_words (a ∷ xs) (b ∷ ys) rest =
    let more = gt_words xs ys rest in
    if ltb (swap16 b) (swap16 a) then true else if ltb (swap16 a) (swap16 b) then false else more

-- The ports are compared as they lie in memory.
unfoldable pub gt_address : InternetAddress → InternetAddress → Bool
gt_address a b = gt_words (words a.host) (words b.host) (ltb b.port a.port)

unfoldable pub eq_words : List ℕ → List ℕ → Bool
eq_words [] ys = true
eq_words (a ∷ xs) [] = true
eq_words (a ∷ xs) (b ∷ ys) = a == b && eq_words xs ys

-- IN6_ARE_ADDR_EQUAL: the port is not looked at.
unfoldable pub eq_address : InternetAddress → InternetAddress → Bool
eq_address a b = eq_words (words a.host) (words b.host)

unfoldable pub ne_address : InternetAddress → InternetAddress → Bool
unfolding eq_address
ne_address a b = not (eq_address a b)

unfoldable pub le_address : InternetAddress → InternetAddress → Bool
le_address a b = lt_address a b || eq_address a b

unfoldable pub ge_address : InternetAddress → InternetAddress → Bool
ge_address a b = gt_address a b || eq_address a b

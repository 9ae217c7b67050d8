-- ===== src/Base/Substrings.antt =====
-- Python's `a in b` on texts, by code points.
use Prim.Native.Char.{code}
use Prim.Native.String.{String, ◌++◌}
use Prim.Native.String.append.{nil, cons}
use mathlib.Core.Path.{◌≡◌, refl}
use mathlib.Core.Bool.{Bool, true, false, ◌&&◌, ◌||◌}
use native.Mathlib.Omega.{arith}
use recoup_ai.Base.Tests.{◌==◌}

unfoldable pub begins_with : String → String → Bool
begins_with s String.[] = true
begins_with String.[] (String.◌∷◌ d t) = false
begins_with (String.◌∷◌ c s) (String.◌∷◌ d t) = (code c == code d) && begins_with s t

-- `t in s`
unfoldable pub mentions : String → String → Bool
unfolding begins_with
mentions String.[] t = begins_with String.[] t
mentions (String.◌∷◌ c s) t = begins_with (String.◌∷◌ c s) t || mentions s t

begins_with-append : (t s : String) → begins_with (t ++ s) t ≡ true
unfolding begins_with
begins_with-append String.[] s = refl
begins_with-append (String.◌∷◌ c t) s = rw (cons c t s) (ground (arith, begins_with-append t s))

mentions-begins : (s t : String) → begins_with s t ≡ true → mentions s t ≡ true
unfolding mentions
mentions-begins String.[] t h = h
mentions-begins (String.◌∷◌ c s) t h = rw h refl

-- A text between two others is in what they make.
pub mentions-append : (a t b : String) → mentions (a ++ (t ++ b)) t ≡ true
unfolding mentions
mentions-append String.[] t b =
    rw (nil (t ++ b)) (mentions-begins (t ++ b) t (begins_with-append t b))
mentions-append (String.◌∷◌ c a) t b =
    rw (cons c a (t ++ b)) (ground (arith, mentions-append a t b))

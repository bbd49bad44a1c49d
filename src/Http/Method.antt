-- ===== src/Http/Method.antt =====
-- clueapi/http/types/method: the HTTP methods and their names.
use clueapi.Base.{◌≡◌, ◌≢◌, ◌↔◌, refl, Bool, true, false, arith, length, ◌==◌, if◌then◌else◌}
use clueapi.Base.Bytes.{Bytes, codes, equal, equal_iff}

pub data Method : Type 0 where
  unknown get head post put delete connect options trace patch : Method

-- The entry of `k_method_names`.
unfoldable pub to_str : Method → Bytes
to_str unknown = codes "UNKNOWN"
to_str get = codes "GET"
to_str head = codes "HEAD"
to_str post = codes "POST"
to_str put = codes "PUT"
to_str delete = codes "DELETE"
to_str connect = codes "CONNECT"
to_str options = codes "OPTIONS"
to_str trace = codes "TRACE"
to_str patch = codes "PATCH"

-- The two names that a case of the switch on `str.size()` tests in turn.
one_of : Bytes → Bytes → Method → Bytes → Method → Method
one_of s a x b y = if equal s a then x else if equal s b then y else unknown

pub from_str : Bytes → Method
unfolding one_of
from_str s =
    if length s == 3
    then one_of s (codes "GET") get (codes "PUT") put
    else if length s == 4
    then one_of s (codes "HEAD") head (codes "POST") post
    else if length s == 5
    then one_of s (codes "PATCH") patch (codes "TRACE") trace
    else if length s == 6
    then (if equal s (codes "DELETE") then delete else unknown)
    else if length s == 7
    then one_of s (codes "CONNECT") connect (codes "OPTIONS") options
    else unknown

pub from_str-to_str : (m : Method) → from_str (to_str m) ≡ m
unfolding from_str to_str equal
from_str-to_str unknown = refl
from_str-to_str get = refl
from_str-to_str head = refl
from_str-to_str post = refl
from_str-to_str put = refl
from_str-to_str delete = refl
from_str-to_str connect = refl
from_str-to_str options = refl
from_str-to_str trace = refl
from_str-to_str patch = refl

from_str_exact : (s : Bytes) (m : Method) → from_str s ≡ m → m ≢ unknown → s ≡ to_str m
unfolding from_str to_str
from_str_exact s unknown h ne = absurd (ne refl)
from_str_exact s get h ne = ground (arith, equal_iff s (codes "GET"))
from_str_exact s head h ne = ground (arith, equal_iff s (codes "HEAD"))
from_str_exact s post h ne = ground (arith, equal_iff s (codes "POST"))
from_str_exact s put h ne = ground (arith, equal_iff s (codes "PUT"))
from_str_exact s delete h ne = ground (arith, equal_iff s (codes "DELETE"))
from_str_exact s connect h ne = ground (arith, equal_iff s (codes "CONNECT"))
from_str_exact s options h ne = ground (arith, equal_iff s (codes "OPTIONS"))
from_str_exact s trace h ne = ground (arith, equal_iff s (codes "TRACE"))
from_str_exact s patch h ne = ground (arith, equal_iff s (codes "PATCH"))

-- For each method but `unknown`, a text parses to the method exactly when it is the method's name.
pub from_str_iff : (s : Bytes) (m : Method) → m ≢ unknown → (from_str s ≡ m) ↔ (s ≡ to_str m)
from_str_iff s m ne = (λ h. from_str_exact s m h ne, λ e. rw e (from_str-to_str m))

unfoldable pub method_eq : Method → Method → Bool
method_eq unknown unknown = true
method_eq get get = true
method_eq head head = true
method_eq post post = true
method_eq put put = true
method_eq delete delete = true
method_eq connect connect = true
method_eq options options = true
method_eq trace trace = true
method_eq patch patch = true
method_eq _ _ = false

pub method_eq_iff : (m n : Method) → (method_eq m n ≡ true) ↔ (m ≡ n)
unfolding method_eq
method_eq_iff m n = ground arith

pub method_eq_refl : (m : Method) → method_eq m m ≡ true
unfolding method_eq
method_eq_refl m = ground arith

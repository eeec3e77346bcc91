-- ===== src/Account/Keys.antt =====
-- The store keys and names of internal/account/account.go.
use annoybots.Base.{
  Bool, true, false, ◌≡◌, refl, [], ◌∷◌, ◌++◌, Text, arith, codes, text_eq, text_eq_iff,
  text_eq-append, if◌then◌else◌, ◌==◌,
}
use annoybots.Account.{identity, link_key, pw_key, mem_key, name_byte, name_bytes, norm_name}

pub link_key_inj : (a b : Text) → text_eq (link_key a) (link_key b) ≡ text_eq a b
unfolding link_key
link_key_inj a b = text_eq-append (codes "acct:id:") a b

pub pw_key_inj : (a b : Text) → text_eq (pw_key a) (pw_key b) ≡ text_eq a b
unfolding pw_key
pw_key_inj a b = text_eq-append (codes "acct:pw:") a b

pub mem_key_inj : (a b : Text) → text_eq (mem_key a) (mem_key b) ≡ text_eq a b
unfolding mem_key
mem_key_inj a b = text_eq-append (codes "acct:links:") a b

pub pw-ne-link : (a b : Text) → text_eq (pw_key a) (link_key b) ≡ false
unfolding link_key pw_key text_eq
pw-ne-link a b = refl

pub link-ne-pw : (a b : Text) → text_eq (link_key a) (pw_key b) ≡ false
unfolding link_key pw_key text_eq
link-ne-pw a b = refl

pub link-ne-mem : (a b : Text) → text_eq (link_key a) (mem_key b) ≡ false
unfolding link_key mem_key text_eq
link-ne-mem a b = refl

bar_in : Text → Bool
bar_in [] = false
bar_in (c ∷ s) = if c == b'|' then true else bar_in s

bar_in-append : (s t : Text) → bar_in (s ++ (b'|' ∷ t)) ≡ true
unfolding bar_in
bar_in-append [] t = refl
bar_in-append (c ∷ s) t = ground (arith, bar_in-append s t)

bar_in-identity : (network account nick : Text) → bar_in (identity network account nick) ≡ true
unfolding identity
bar_in-identity network account nick = bar_in-append _ _

not-bar_in-name : (s : Text) → name_bytes s ≡ true → bar_in s ≡ false
unfolding name_bytes name_byte bar_in
not-bar_in-name [] h = refl
not-bar_in-name (c ∷ s) h = ground (arith, not-bar_in-name s)

norm_name-name_bytes : (s : Text) → name_bytes (norm_name s) ≡ true
unfolding norm_name name_bytes
norm_name-name_bytes s = ground arith

-- No account name is the raw identity of anybody.
pub norm_name-ne-identity :
    (s network account nick : Text) → text_eq (norm_name s) (identity network account nick) ≡ false
norm_name-ne-identity s network account nick = ground (
  arith,
  text_eq_iff (norm_name s) (identity network account nick),
  bar_in-identity network account nick,
  not-bar_in-name (norm_name s) (norm_name-name_bytes s),
)

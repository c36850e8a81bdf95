-- ===== src/Broker/Addresses.antt =====
-- The addresses that `setAddrs` of broker/mqtt/utils.go gives the client.
use kratos_transport_rpc.Prelude.{
  ℕ, zero, suc, ◌+◌, ◌-◌, ◌*◌, ◌/◌, ◌%◌, ◌≤◌, ◌<◌, ◌≡◌, refl, ap, ap₂, sym, subst, ◌∙◌, inl, inr,
  Option, none, some, List, [], ◌∷◌, ◌++◌, map, append-nil, Bytes, length, ◌==◌, ==_false, ==_iff,
  ltb, le→ltb, ltb→le, Bool-cases, true, false, Lacks, arith, leb, index_byte-none, length-append,
  drop-append, index_byte,
}
use kratos_transport_rpc.Prelude.Text.{codes}
use kratos_transport_rpc.Wire.{digits, decimal}
use kratos_transport_rpc.Wire.Layout.{number, AllDigits, number-digits, digits-AllDigits}
use kratos_transport_rpc.Broker.{
  cut, starts_with, digits_value, clamp, unsigned_port, port_text, known_scheme, default_port,
  join_address, complete, with_scheme, split_address, address, all_addresses, default_address,
  set_addrs,
}

pub data Scheme : Type 0 where
  tcp ssl ws : Scheme

abbrev pub name_of : Scheme → Bytes
name_of tcp = codes "tcp"
name_of ssl = codes "ssl"
name_of ws = codes "ws"

abbrev pub port_of : Scheme → Bytes
port_of tcp = codes "1883"
port_of ssl = codes "8883"
port_of ws = codes "80"

-- The forms of an address: a host, with a scheme or without, and with a port or without; and an
-- address of another scheme.
pub data Form : Type 0 where
  host : Bytes → Option ℕ → Form
  full : Scheme → Bytes → Option ℕ → Form
  foreign : Bytes → Bytes → Form

abbrev pub with_port : Bytes → Option ℕ → Bytes
with_port h none = h
with_port h (some n) = h ++ (b':' ∷ decimal n)

abbrev pub text_of : Form → Bytes
text_of (host h p) = with_port h p
text_of (full s h p) = name_of s ++ (codes "://" ++ with_port h p)
text_of (foreign s rest) = s ++ (codes "://" ++ rest)

abbrev pub port_or : Bytes → Option ℕ → Bytes
port_or d none = d
port_or d (some n) = decimal n

-- the addresses for a form: one with all parts, or none for another scheme
abbrev pub completed : Form → List Bytes
completed (host h p) = (codes "tcp://" ++ (h ++ (b':' ∷ port_or (codes "1883") p))) ∷ []
completed (full s h p) = (name_of s ++ (codes "://" ++ (h ++ (b':' ∷ port_or (port_of s) p)))) ∷ []
completed (foreign s rest) = []

abbrev pub all_completed : List Form → List Bytes
all_completed [] = []
all_completed (a ∷ l) = completed a ++ all_completed l

abbrev pub PortFits : Option ℕ → Type 0
PortFits none = Unit
PortFits (some n) = n ≤ 9223372036854775807

-- Hosts and schemes have no colon, a host without a scheme and an unknown scheme are not
-- empty, and a port is in the range of int.
abbrev pub FormFits : Form → Type 0
FormFits (host h p) = (0 < length h) × Lacks b':' h × PortFits p
FormFits (full s h p) = Lacks b':' h × PortFits p
FormFits (foreign s rest) = (0 < length s) × Lacks b':' s × (known_scheme s ≡ false)

abbrev pub AllFit : List Form → Type 0
AllFit [] = Unit
AllFit (a ∷ l) = FormFits a × AllFit l

le-number : (n : ℕ) (u : Bytes) → n ≤ number n u
le-number n [] = omega arith
le-number n (x ∷ u) = omega (arith, le-number (n * 10 + (x - b'0')) u)

digits_value-number :
    (acc : ℕ) (u : Bytes)
    → AllDigits u
    → number acc u ≤ 9223372036854775807
    → digits_value acc u ≡ some (number acc u)
unfolding digits_value
digits_value-number acc [] all le = refl
digits_value-number acc (x ∷ u) (low, high, all) le =
    let n = acc * 10 + (x - b'0') in
    let h = le-number n u in
    let e1 : leb 48 x ≡ true = ground arith in
    let e2 : leb x 57 ≡ true = ground arith in
    let e3 : ltb 18446744073709551615 n ≡ false = le→ltb 18446744073709551615 n (omega arith) in
    rw (e1, e2, e3) (digits_value-number n u all le)

port_text-digits :
    (u : Bytes)
    → AllDigits u
    → 0 < length u
    → number 0 u ≤ 9223372036854775807
    → port_text u ≡ decimal (number 0 u)
unfolding port_text unsigned_port clamp
port_text-digits [] all some_digits le = absurd (omega arith)
port_text-digits (x ∷ u) all some_digits le =
    let minus : (x == b'-') ≡ false = ==_false x b'-' (λ e. omega (arith, all.0)) in
    let plus : (x == b'+') ≡ false = ==_false x b'+' (λ e. omega (arith, all.0)) in
    let small = le→ltb 9223372036854775807 (number 0 (x ∷ u)) le in
    simp (minus, plus, digits_value-number 0 (x ∷ u) all le, small) refl

length-digits : (f n : ℕ) (acc : Bytes) → n < f → length acc < length (digits f n acc)
unfolding digits
length-digits zero n acc h = absurd (omega arith)
length-digits (suc f) n acc h = elim (Bool-cases (ltb n 10)) [
  | inl small ↦ rw small (omega arith)
  | inr large ↦
      let more =
        length-digits f (n / 10) ((b'0' + n % 10) ∷ acc) (omega (arith, ltb→le n 10 large)) in
      rw large (omega arith)
]

decimal-AllDigits : (n : ℕ) → AllDigits (decimal n)
unfolding decimal
decimal-AllDigits n = digits-AllDigits (n + 1) n [] tt

decimal-some : (n : ℕ) → 0 < length (decimal n)
unfolding decimal
decimal-some n = length-digits (n + 1) n [] (omega arith)

port_text-decimal : (n : ℕ) → n ≤ 9223372036854775807 → port_text (decimal n) ≡ decimal n
unfolding decimal
port_text-decimal n le =
    let same : number 0 (decimal n) ≡ n = number-digits (n + 1) n [] (omega arith) in
    port_text-digits (decimal n) (decimal-AllDigits n) (decimal-some n) (omega arith)
    ∙ ap decimal same

AllDigits-Lacks : (u : Bytes) → AllDigits u → Lacks b':' u
AllDigits-Lacks [] all = tt
AllDigits-Lacks (x ∷ u) (low, high, all) = (λ e. omega arith, AllDigits-Lacks u all)

starts_with-append : (sep t : Bytes) → starts_with sep (sep ++ t) ≡ true
starts_with-append [] t = refl
starts_with-append (x ∷ sep) t = simp ((==_iff x x).1 refl, starts_with-append sep t) refl

module _ (sep : Bytes) where
  cut-past :
      (h t : Bytes)
      → Lacks b':' h
      → cut (b':' ∷ sep) t ≡ (t, none)
      → cut (b':' ∷ sep) (h ++ t) ≡ (h ++ t, none)
  unfolding cut
  cut-past [] t lacks e = e
  cut-past (x ∷ h) t (ne, lacks) e =
      let apart : (b':' == x) ≡ false = ==_false b':' x (λ q. ne (sym q)) in
      rw (apart, cut-past h t lacks e) refl

  cut-at : (h t : Bytes) → Lacks b':' h → cut (b':' ∷ sep) (h ++ (b':' ∷ (sep ++ t))) ≡ (h, some t)
  unfolding cut
  cut-at [] t lacks = rw (starts_with-append sep t) (ap (λ x. ([], some x)) (drop-append sep t))
  cut-at (x ∷ h) t (ne, lacks) =
      let apart : (b':' == x) ≡ false = ==_false b':' x (λ q. ne (sym q)) in
      rw (apart, cut-at h t lacks) refl

cut-none : (sep h : Bytes) → Lacks b':' h → cut (b':' ∷ sep) h ≡ (h, none)
unfolding cut
cut-none sep h lacks =
    subst (λ x. cut (b':' ∷ sep) x ≡ (x, none)) (append-nil h) (cut-past sep h [] lacks refl)

cut-port :
    (u : Bytes) → AllDigits u → 0 < length u → cut (codes "://") (b':' ∷ u) ≡ (b':' ∷ u, none)
unfolding cut
cut-port [] all some_digits = absurd (omega arith)
cut-port (x ∷ u) all some_digits =
    let slash : (b'/' == x) ≡ false = ==_false b'/' x (λ e. omega (arith, all.0)) in
    let rest = cut-none (codes "//") (x ∷ u) (AllDigits-Lacks (x ∷ u) all) in
    simp (slash, rest) refl

-- no "://" in a host with its port
cut-with_port :
    (h : Bytes) (p : Option ℕ)
    → Lacks b':' h
    → cut (codes "://") (with_port h p) ≡ (with_port h p, none)
cut-with_port h none lacks = cut-none (codes "//") h lacks
cut-with_port h (some n) lacks =
    cut-past (codes "//") h (b':' ∷ decimal n) lacks
      (cut-port (decimal n) (decimal-AllDigits n) (decimal-some n))

with_scheme-port :
    (s h : Bytes) (p : Option ℕ)
    → known_scheme s ≡ true
    → Lacks b':' h
    → PortFits p
    → with_scheme s (with_port h p) ≡ join_address s h (port_or (default_port s) p) ∷ []
unfolding with_scheme complete
with_scheme-port s h none known lacks fits = simp (known, cut-none [] h lacks) refl
with_scheme-port s h (some n) known lacks fits =
    let digits_lack = AllDigits-Lacks (decimal n) (decimal-AllDigits n) in
    simp
      (
        known,
        cut-at [] h (decimal n) lacks,
        cut-none [] (decimal n) digits_lack,
        port_text-decimal n fits,
      )
      refl

address-split : (a : Bytes) → 0 < length a → address a ≡ split_address (cut (codes "://") a)
unfolding address
address-split a some_bytes = rw (==_false (length a) 0 (λ e. omega arith)) refl

known_name : (s : Scheme) → known_scheme (name_of s) ≡ true
unfolding known_scheme
known_name tcp = refl
known_name ssl = refl
known_name ws = refl

default_name : (s : Scheme) → default_port (name_of s) ≡ port_of s
unfolding default_port
default_name tcp = refl
default_name ssl = refl
default_name ws = refl

name-Lacks : (s : Scheme) → Lacks b':' (name_of s)
unfolding index_byte
name-Lacks tcp = index_byte-none (codes "tcp") b':' refl
name-Lacks ssl = index_byte-none (codes "ssl") b':' refl
name-Lacks ws = index_byte-none (codes "ws") b':' refl

full_some : (s : Scheme) (t : Bytes) → 0 < length (name_of s ++ t)
full_some s t = elim s as (λ k. 0 < length (name_of k ++ t)) [
  | tcp ↦ omega arith
  | ssl ↦ omega arith
  | ws ↦ omega arith
]

dropped : (s rest : Bytes) → known_scheme s ≡ false → with_scheme s rest ≡ []
unfolding with_scheme
dropped s rest unknown = rw unknown refl

with_port_some : (h : Bytes) (p : Option ℕ) → 0 < length h → 0 < length (with_port h p)
with_port_some h none some_bytes = some_bytes
with_port_some h (some n) some_bytes = omega (arith, length-append {0} h (b':' ∷ decimal n))

address-completed : (a : Form) → FormFits a → address (text_of a) ≡ completed a
unfolding split_address
address-completed (host h p) (some_bytes, lacks, fits) =
    address-split (with_port h p) (with_port_some h p some_bytes)
    ∙ ap split_address (cut-with_port h p lacks)
    ∙ with_scheme-port (codes "tcp") h p (known_name tcp) lacks fits
    ∙ ap (λ d. join_address (codes "tcp") h (port_or d p) ∷ []) (default_name tcp)
address-completed (full s h p) (lacks, fits) =
    let rest = with_port h p in
    address-split (name_of s ++ (codes "://" ++ rest)) (full_some s (codes "://" ++ rest))
    ∙ ap split_address (cut-at (codes "//") (name_of s) rest (name-Lacks s))
    ∙ ap (λ x. with_scheme (name_of s) x.0) (cut-with_port h p lacks)
    ∙ with_scheme-port (name_of s) h p (known_name s) lacks fits
    ∙ ap (λ d. join_address (name_of s) h (port_or d p) ∷ []) (default_name s)
address-completed (foreign s rest) (some_bytes, lacks, unknown) =
    address-split (s ++ (codes "://" ++ rest))
      (omega (arith, length-append {0} s (codes "://" ++ rest)))
    ∙ ap split_address (cut-at (codes "//") s rest lacks)
    ∙ dropped s (cut (codes "://") rest).0 unknown

all-completed : (l : List Form) → AllFit l → all_addresses (map text_of l) ≡ all_completed l
unfolding all_addresses
all-completed [] fits = refl
all-completed (a ∷ l) (fit, fits) =
    ap₂ (λ x y. x ++ y) (address-completed a fit) (all-completed l fits)

abbrev pub or_local : List Bytes → List Bytes
or_local [] = codes "tcp://127.0.0.1:1883" ∷ []
or_local (a ∷ l) = a ∷ l

-- `setAddrs` completes each address, in order: an address without a scheme gets tcp, and one without a
-- port gets the port of its scheme, 1883 for tcp, 8883 for ssl and 80 for ws; host and port that are
-- given stay. An address of another scheme is dropped, and where none is left there is the one of the
-- local machine, tcp://127.0.0.1:1883. Hosts and schemes have no colon, a host without a scheme and an
-- unknown scheme are not empty, and ports are in the range of int.
pub set_addrs-completed :
    (l : List Form) → AllFit l → set_addrs (map text_of l) ≡ or_local (all_completed l)
unfolding set_addrs
set_addrs-completed l fits = ap default_address (all-completed l fits) ∙ same (all_completed l)
  where
    same : (m : List Bytes) → default_address m ≡ or_local m
    same [] = refl
    same (a ∷ m) = refl

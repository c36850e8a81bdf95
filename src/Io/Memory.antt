-- ===== src/Io/Memory.antt =====
-- Two implementations of the interfaces: `strings.Reader`, which ReadRequest is called on, and a
-- writer that takes everything, as `bytes.Buffer` does.
use kratos_transport_rpc.Prelude.{
  ◌<◌, ◌≡◌, zero, suc, ℕ, refl, ap, sym, ◌++◌, [], ◌∷◌, none, some, Bytes, length, take, drop,
  take-append-drop, take_all, length-take, ◌==◌, false, if◌then◌else◌, arith,
}
use kratos_transport_rpc.Io.{is_none, eof, Read, Write, Gives, IsSource, IsSink}

unfoldable pub string_read : Read Bytes
string_read s k =
    if length s == 0 then (some [], some eof, []) else (some (take k s), none, drop k s)

string_read-Gives : (s : Bytes) (k : ℕ) → Gives string_read (λ l. l) s k
unfolding string_read
string_read-Gives [] k = record {
  bytes = [];
  error = some eof;
  next = [];
  read_eq = refl;
  fits = omega arith;
  rest_eq = refl;
}
string_read-Gives (x ∷ s) k = record {
  bytes = take k (x ∷ s);
  error = none;
  next = drop k (x ∷ s);
  read_eq = ground arith;
  fits = omega (arith, length-take k (x ∷ s));
  rest_eq = sym (take-append-drop k (x ∷ s));
}

pub string-IsSource : IsSource string_read (λ l. l)
string-IsSource = record { gives = string_read-Gives }

unfoldable pub buffer_write : Write Bytes
buffer_write s p = (length p, none, s ++ p)

pub buffer-IsSink : IsSink buffer_write (λ l. l)
unfolding buffer_write
buffer-IsSink = record {
  takes = λ s p. record {
    count = length p;
    error = none;
    next = s ++ p;
    write_eq = refl;
    fits = omega arith;
    short = λ h. absurd (omega arith);
    written_eq = ap (λ l. s ++ l) (sym (take_all (length p) p (omega arith)));
  };
}

-- `strings.Reader` gives all it has, and fails only when it has nothing left.
pub string_error_at_end :
    (s : Bytes) (k : ℕ) → is_none (string_read s k).1 ≡ false → (string_read s k).2 ≡ []
unfolding string_read
string_error_at_end [] k h = refl
string_error_at_end (x ∷ s) k h = ground arith

pub string_empty_at_end :
    (s : Bytes) (k : ℕ) → 0 < k → (string_read s k).0 ≡ some [] → (string_read s k).2 ≡ []
unfolding string_read
string_empty_at_end [] k h e = refl
string_empty_at_end (x ∷ s) zero h e = absurd (omega arith)
string_empty_at_end (x ∷ s) (suc k) h e = ground arith

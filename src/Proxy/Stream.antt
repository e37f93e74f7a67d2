-- ===== src/Proxy/Stream.antt =====
-- A connection to a SOCKS5 server as the coroutines see it: the bytes that the server sends before it
-- closes, and the bytes written so far. An exception is an error value.
use clew_proxy.Prelude.{
  ℕ, Bool, true, false, if◌then◌else◌, ltb, List, [], ◌++◌, length, take, drop, get_or,
}

pub record Stream : Type 0 where
  pub input : List ℕ
  pub output : List ℕ

pub data Failure : Type 0 where
  end_of_file auth_rejected bad_version unsupported_address bad_host : Failure
  refused : (code : ℕ) → Failure

pub data Result (A : Type 0) : Type 0 where
  ok : A → Result A
  err : Failure → Result A

abbrev pub Io : Type 0 → Type 0
Io A = Stream → Result A × Stream

-- What follows a step that succeeded.
abbrev pub follow : {A B : Type 0} → Result A × Stream → (A → Io B) → Result B × Stream
follow (ok a, s) f = f a s
follow (err e, s) f = (err e, s)

infixl 5 ◌>>=◌ ◌>>◌
abbrev pub ◌>>=◌ : {A B : Type 0} → Io A → (A → Io B) → Io B
◌>>=◌ m f s = follow (m s) f

abbrev pub ◌>>◌ : {B : Type 0} → Io (Unit {0}) → Io B → Io B
m >> k = m >>= λ _. k

abbrev pub pure : {A : Type 0} → A → Io A
pure a s = (ok a, s)

abbrev pub fail : {A : Type 0} → Failure → Io A
fail e s = (err e, s)

abbrev pub check : Bool → Failure → Io (Unit {0})
check true e s = (ok tt, s)
check false e s = (err e, s)

abbrev pub write : List ℕ → Io (Unit {0})
write bytes s = (ok tt, record s { output = s.output ++ bytes })

-- A read of exactly `n` bytes; it fails if the server closes before.
abbrev pub read : ℕ → Io (List ℕ)
read n s =
    if ltb (length s.input) n
    then (err end_of_file, record s { input = [] })
    else (ok (take n s.input), record s { input = drop n s.input })

abbrev pub byte : List ℕ → ℕ → ℕ
byte buf i = get_or buf i 0

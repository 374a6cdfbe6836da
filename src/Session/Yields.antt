-- ===== src/Session/Yields.antt =====
-- What a step on a connection has established when it returns: a property of its result, and how
-- many messages it has written. The rules compose as the steps do.
use tlsscan.Base.{
  ℕ, ◌+◌, Bool, true, false, [], ◌∷◌, ◌++◌, Option, none, some, length, if◌then◌else◌, ◌≡◌, ◌∙◌,
  refl, sym, ap, arith, length-append,
}
use tlsscan.Wire.{Bytes}
use tlsscan.Net.{NetError, Conn, Result, ok, err, Io, after, ◌>>=◌, ◌>>◌, pure, fail, write}
use tlsscan.Net.Stream.{Parsed, got, starved, refused, Parser, Agrees, Implements}
use tlsscan.Session.{need, need_true, send, sent_or_not}

abbrev pub Yields : {A : Type 0} → ℕ → (A → Type 0) → Io A → Type 0
Yields {A} n P m =
    (c : Conn) (a : A) (c' : Conn) → m c ≡ (ok a, c') → P a × (length c'.sent ≡ length c.sent + n)

abbrev pub Anything : {A : Type 0} → A → Type 0
Anything a = Unit

-- An outcome and the connection.
abbrev ended : {A : Type 0} → Result A → Conn → Result A × Conn
ended r c = (r, c)

abbrev value : {A : Type 0} → A → Result A → A
value d (ok a) = a
value d (err e) = d

abbrev is_ok : {A : Type 0} → Result A → Bool
is_ok (ok a) = true
is_ok (err e) = false

abbrev flag : Bool → ℕ
flag true = 1
flag false = 0

-- No error is a value.
ok-err : {A : Type 0} {a : A} {e : NetError} {c c' : Conn} → ended (err e) c ≡ ended (ok a) c' → ⊥
ok-err p = let q = ap (λ r. flag (is_ok r.0)) p in absurd (omega (arith, q))

ok-ok : {A : Type 0} {a b : A} {c d : Conn} → ended (ok a) c ≡ ended (ok b) d → (a ≡ b) × (c ≡ d)
ok-ok {a = a} p = (ap (λ r. value a r.0) p, ap (λ r. r.1) p)

pub pure-Yields : {A : Type 0} (P : A → Type 0) (a : A) → P a → Yields 0 P (pure a)
pure-Yields P a h c b c' p =
    let (e, f) = ok-ok p in (rw e at h, let q = ap (λ d. length d.sent) f in omega arith)

pub fail-Yields : {A : Type 0} (n : ℕ) (P : A → Type 0) (e : NetError) → Yields n P (fail e)
fail-Yields n P e c b c' p = absurd (ok-err p)

pub >>=-Yields :
    {A B : Type 0} (n k : ℕ) (P : A → Type 0) (Q : B → Type 0) (m : Io A) (f : A → Io B)
    → Yields n P m
    → ((a : A) → P a → Yields k Q (f a))
    → Yields (n + k) Q (m >>= f)
>>=-Yields {A} {B} n k P Q m f hm hf c b c' = go (m c) (hm c)
  where
    go :
        (r : Result A × Conn)
        → ((a : A) (d : Conn) → r ≡ (ok a, d) → P a × (length d.sent ≡ length c.sent + n))
        → after r f ≡ (ok b, c')
        → Q b × (length c'.sent ≡ length c.sent + (n + k))
    go (err e, d) h p = absurd (ok-err p)
    go (ok a, d) h p =
        let (ha, s) = h a d refl in let (hb, t) = hf a ha d b c' p in (hb, omega arith)

pub need-Yields : {A : Type 0} (o : Option A) → Yields 0 (λ a. o ≡ some a) (need o)
need-Yields none c a c' p = absurd (ok-err p)
need-Yields (some b) c a c' p =
    let (e, f) = ok-ok p in (ap some e, let q = ap (λ d. length d.sent) f in omega arith)

pub need_true-Yields : (b : Bool) → Yields 0 (λ u. b ≡ true) (need_true b)
need_true-Yields false c a c' p = absurd (ok-err p)
need_true-Yields true c a c' p =
    let (e, f) = ok-ok p in (refl, let q = ap (λ d. length d.sent) f in omega arith)

pub send-Yields : (b : Bytes) → Yields 1 Anything (send b)
unfolding write
send-Yields b c a c' p = go (c.peer.accepts (c.sent ++ b ∷ [])) p
  where
    go :
        (t : Bool)
        → sent_or_not (
            if t
            then (
              true,
              record c {
                sent = c.sent ++ b ∷ [];
                inbound = c.inbound ++ c.peer.reply (c.sent ++ b ∷ []);
              },
            )
            else (false, c))
          ≡ (ok a, c')
        → Unit {0} × (length c'.sent ≡ length c.sent + 1)
    go false q = absurd (ok-err q)
    go true q =
        let (e, f) = ok-ok q in
        (tt, sym (ap (λ d. length d.sent) f) ∙ length-append c.sent (b ∷ []))

-- A reader of the stream writes nothing.
pub Implements-Yields :
    {A : Type 0} (m : Io A) (p : Parser A) → Implements m p → Yields 0 Anything m
Implements-Yields {A} m p h c a c' e = go (p _) (h c)
  where
    go : (r : Parsed A) → Agrees c (m c) r → Unit {0} × (length c'.sent ≡ length c.sent + 0)
    go (got b s) (ps, f, g) =
        let (x, y) = ok-ok (sym f ∙ e) in (tt, let q = ap (λ d. length d.sent) y in omega arith)
    go starved (ps, f) = absurd (ok-err (sym f ∙ e))
    go (refused x) (ps, f) = absurd (ok-err (sym f ∙ e))

pub if-Yields :
    {A : Type 0} (n : ℕ) (P : A → Type 0) (b : Bool) (x y : Io A)
    → Yields n P x
    → Yields n P y
    → Yields n P (if b then x else y)
if-Yields n P true x y hx hy = hx
if-Yields n P false x y hx hy = hy

Yields-zero : {A : Type 0} (n : ℕ) (P : A → Type 0) (m : Io A) → Yields (0 + n) P m → Yields n P m
Yields-zero n P m h c a c' p = let (x, e) = h c a c' p in (x, omega arith)

-- Steps whose first one writes nothing.
pub need->>=-Yields :
    {A B : Type 0} (n : ℕ) (Q : B → Type 0) (o : Option A) (f : A → Io B)
    → ((a : A) → o ≡ some a → Yields n Q (f a))
    → Yields n Q (need o >>= f)
need->>=-Yields n Q o f h =
    Yields-zero n Q _ (>>=-Yields 0 n (λ a. o ≡ some a) Q (need o) f (need-Yields o) h)

pub need_true->>-Yields :
    {B : Type 0} (n : ℕ) (Q : B → Type 0) (b : Bool) (m : Io B)
    → Yields n Q m
    → Yields n Q (need_true b >> m)
need_true->>-Yields n Q b m h =
    Yields-zero n Q _
      (>>=-Yields 0 n (λ u. b ≡ true) Q (need_true b) (λ _. m) (need_true-Yields b) (λ _ _. h))

pub read->>=-Yields :
    {A B : Type 0} (n : ℕ) (Q : B → Type 0) (m : Io A) (f : A → Io B)
    → Yields 0 Anything m
    → ((a : A) → Yields n Q (f a))
    → Yields n Q (m >>= f)
read->>=-Yields n Q m f hm h = Yields-zero n Q _ (>>=-Yields 0 n Anything Q m f hm (λ a _. h a))

pub send->>-Yields :
    {B : Type 0} (n : ℕ) (Q : B → Type 0) (b : Bytes) (m : Io B)
    → Yields n Q m
    → Yields (1 + n) Q (send b >> m)
send->>-Yields n Q b m h = >>=-Yields 1 n Anything Q (send b) (λ _. m) (send-Yields b) (λ _ _. h)

-- ===== src/Utils.antt =====
-- `dns_unified` of utils.c. A C string is the list of its bytes, without the final 0.
use xfrpc.Prelude.{
  ℕ, ◌+◌, ◌<◌, ◌≡◌, refl, ap, arith, Bool, true, false, ◌&&◌, ◌||◌, if◌then◌else◌, ltb, leb, ◌==◌,
  Option, none, some, List, [], ◌∷◌, ◌++◌, length,
}

abbrev pub slash : ℕ
slash = 47

abbrev pub dot : ℕ
dot = 46

-- The library's `tolower`, in the C locale.
unfoldable pub tolower : ℕ → ℕ
tolower c = if leb 65 c && leb c 90 then c + 32 else c

-- `i != dlen - 1`, by what follows the character.
abbrev pub follows : List ℕ → Bool
follows [] = false
follows (c ∷ cs) = true

-- The loop: `has_dot`, and what it has written.
unfoldable pub dns_loop : List ℕ → Bool × List ℕ
dns_loop [] = (false, [])
dns_loop (c ∷ cs) =
    let (has_dot, written) = dns_loop cs in
    if c == slash then (false, []) else ((c == dot && follows cs) || has_dot, tolower c ∷ written)

-- The returned code and the bytes that went to the buffer, whose length is `udname_buf_len`. The
-- strings are `none` where they are null.
unfoldable pub dns_unified : Option (List ℕ) → Bool → ℕ → ℕ × List ℕ
dns_unified none udname_buf udname_buf_len = (1, [])
dns_unified (some dname) false udname_buf_len = (1, [])
dns_unified (some dname) true udname_buf_len =
    let (has_dot, written) = dns_loop dname in
    if ltb udname_buf_len (length dname + 1) then (1, []) else (if has_dot then 0 else 1, written)

-- The bytes in lower case.
abbrev pub lowered : List ℕ → List ℕ
lowered [] = []
lowered (c ∷ cs) = tolower c ∷ lowered cs

-- A character is among the bytes.
abbrev pub holds : ℕ → List ℕ → Bool
holds x [] = false
holds x (c ∷ cs) = c == x || holds x cs

follows-append : (cs post : List ℕ) → follows (cs ++ (slash ∷ post)) ≡ true
follows-append [] post = refl
follows-append (c ∷ cs) post = refl

neither : (a b : Bool) → (a || b) ≡ false → (a ≡ false) × (b ≡ false)
neither true b e = absurd cc
neither false b e = (refl, e)

and_true : (b : Bool) → (b && true) ≡ b
and_true true = refl
and_true false = refl

dns_loop-append :
    (host path : List ℕ)
    → holds slash host ≡ false
    → dns_loop (host ++ (slash ∷ path)) ≡ (holds dot host, lowered host)
unfolding dns_loop
dns_loop-append [] path h = refl
dns_loop-append (c ∷ host) path h =
    let (here, later) = neither (c == slash) (holds slash host) h in
    rw (dns_loop-append host path later, follows-append host path)
      (rw here (ap (λ b. (b || holds dot host, lowered (c ∷ host))) (and_true (c == dot))))

-- Of a name with a path behind it, `dns_unified` writes the name alone, in lower case, and accepts
-- it exactly if it has a dot; the buffer holds the whole text. The path is dropped, also where the
-- comment of the source keeps it.
pub dns_unified_lem :
    (host path : List ℕ) (size : ℕ)
    → holds slash host ≡ false
    → length (host ++ (slash ∷ path)) < size
    → dns_unified (some (host ++ (slash ∷ path))) true size
      ≡ (if holds dot host then 0 else 1, lowered host)
unfolding dns_unified
dns_unified_lem host path size h fits = rw (dns_loop-append host path h) (ground arith)

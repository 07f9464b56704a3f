-- ===== src/At/Input/Lines.antt =====
-- `decode_input` reads a reply line by line: what it makes of a line that is neither OK nor ERROR,
-- and of these two.
use air_quality_sensor_node.Base.{
  ℕ, ◌+◌, ◌^◌, ◌<◌, ◌≡◌, ◌≢◌, refl, ◌∙◌, sym, Bool, true, false, ◌&&◌, [], ◌∷◌, ◌++◌, Bytes, All,
  All-append, leb, ◌==◌, if◌then◌else◌, length, length-append, append_assoc, append-nil, arith,
  Bool-cases, inl, inr, codes,
}
use air_quality_sensor_node.Base.Outcome.{Outcome, ok, ◌>>=◌, bind_assoc, bind_congr}
use air_quality_sensor_node.At.Buffer.{b_size, b_reset, b_add, b_is, is_prefix}
use air_quality_sensor_node.At.Buffer.Prefix.{
  add_all, padded, add_all-append, add_all_one, line_holds, IsNot, is_prefix-without,
  is_prefix-ended,
}
use air_quality_sensor_node.At.Input.{
  at_ok, Callbacks, Reader, return, continue, ok_line, error_line, end_line, test_line, read_byte,
  read_all,
}

-- No CR and no LF.
abbrev pub IsPlain : Bytes → Type 0
IsPlain l = All (IsNot b'\r') l × All (IsNot b'\n') l

abbrev pub crlf : Bytes
crlf = b'\r' ∷ b'\n' ∷ []

-- A line is taken for a URC if it begins with a plus sign.
abbrev pub starts_plus : Bytes → Bool
starts_plus [] = false
starts_plus (c ∷ cs) = c == b'+'

urc_flag :
    (xs : Bytes) (b : ℕ)
    → length xs < 2 ^ 16
    → (if (b == b'+') && ((add_all b_reset xs).size == 0) then true else starts_plus xs)
      ≡ starts_plus (xs ++ b ∷ [])
urc_flag [] b h = ground (arith, line_holds [])
urc_flag (x ∷ xs) b h = ground (arith, line_holds (x ∷ xs))

-- Inside a line neither test passes: both texts end in LF.
no_match :
    (xs : Bytes)
    → All (IsNot b'\n') xs
    → (b_is (add_all b_reset xs) ok_line ≡ false) × (b_is (add_all b_reset xs) error_line ≡ false)
unfolding b_is
no_match xs h = (
  rw ((line_holds xs).first) (is_prefix-without b'\n' (codes "OK\r") 10 xs (omega arith) h),
  rw ((line_holds xs).first) (is_prefix-without b'\n' (codes "ERROR\r") 10 xs (omega arith) h),
)

-- A line without a CR that differs from `w` does not match `w` followed by CR and LF.
not_prefix :
    (w l : Bytes) (c : ℕ) (tail : Bytes)
    → All (IsNot b'\r') l
    → l ≢ w
    → All (IsNot b'\r') w
    → is_prefix (w ++ b'\r' ∷ c ∷ tail) (padded b_size (l ++ crlf)) ≡ false
not_prefix w l c tail hl ne hw =
    elim (Bool-cases (is_prefix (w ++ b'\r' ∷ c ∷ tail) (padded b_size (l ++ crlf)))) [
      | inl e ↦ absurd (ne (sym (is_prefix-ended w b_size l (c ∷ tail) (b'\n' ∷ []) hw hl e)))
      | inr e ↦ e
    ]

and_false : (b : Bool) → (b && false) ≡ false
and_false false = refl
and_false true = refl

ne_test : (b : ℕ) → b ≢ b'\n' → (b == b'\n') ≡ false
ne_test b h = ground arith

module _ {C : Type 0} (isspace : ℕ → Bool) (cb : Callbacks C) where
  open cb use {char_cb, eol_cb}

  -- The reader behind the bytes `xs` of a line.
  abbrev pub within : Bytes → ℕ → C → Reader C
  within xs prev ctx = record {
    rb = add_all b_reset xs;
    prev = prev;
    is_urc = starts_plus xs;
    ctx = ctx;
  }

  -- The character callbacks of the bytes `bs` behind the bytes `xs` of a line.
  unfoldable pub feed : C → Bytes → Bytes → Outcome C
  feed ctx xs [] = ok ctx
  feed ctx xs (b ∷ bs) =
      char_cb ctx (add_all b_reset (xs ++ b ∷ [])) b (starts_plus (xs ++ b ∷ [])) (isspace b)
      >>= λ ctx'. feed ctx' (xs ++ b ∷ []) bs

  -- The callbacks of a whole line.
  unfoldable pub read_line : C → Bytes → Outcome C
  read_line ctx l = feed ctx [] (l ++ crlf) >>= λ ctx'.
      eol_cb ctx' (add_all b_reset (l ++ crlf)) (starts_plus (l ++ crlf))

  last_or : ℕ → Bytes → ℕ
  last_or p [] = p
  last_or p (b ∷ bs) = last_or b bs

  last_or-append : (p : ℕ) (l : Bytes) (b : ℕ) → last_or p (l ++ b ∷ []) ≡ b
  unfolding last_or
  last_or-append p [] b = refl
  last_or-append p (x ∷ l) b = last_or-append x l b

  -- What a round comes to, once the flags and the buffer are known.
  read_byte-within :
      (xs : Bytes) (prev b : ℕ) (ctx : C)
      → length xs < 2 ^ 16
      → read_byte isspace cb (within xs prev ctx) b ≡ (
          char_cb ctx (add_all b_reset (xs ++ b ∷ [])) b (starts_plus (xs ++ b ∷ [])) (isspace b)
          >>= λ ctx'. test_line isspace cb (within (xs ++ b ∷ []) prev ctx') b)
  unfolding read_byte
  read_byte-within xs prev b ctx h =
      let same = add_all-append xs (b ∷ []) b_reset ∙ add_all_one (add_all b_reset xs) b in
      rw (urc_flag xs b h, same)

  test_line-inside :
      (xs : Bytes) (prev b : ℕ) (ctx : C)
      → All (IsNot b'\n') (xs ++ b ∷ [])
      → (b == b'\n') ≡ false
      → test_line isspace cb (within (xs ++ b ∷ []) prev ctx) b
        ≡ ok (continue (within (xs ++ b ∷ []) b ctx))
  unfolding test_line end_line
  test_line-inside xs prev b ctx h ne = ground (arith, no_match (xs ++ b ∷ []) h)

  read_all-feed :
      (bs xs rest : Bytes) (prev : ℕ) (ctx : C)
      → All (IsNot b'\n') xs
      → All (IsNot b'\n') bs
      → length xs + length bs < 2 ^ 16
      → read_all isspace cb (within xs prev ctx) (bs ++ rest) ≡ (
          feed ctx xs bs >>= λ ctx'.
          read_all isspace cb (within (xs ++ bs) (last_or prev bs) ctx') rest)
  unfolding feed last_or read_all
  read_all-feed [] xs rest prev ctx hx hb le = rw append-nil
  read_all-feed (b ∷ bs) xs rest prev ctx hx hb le =
      let no_lf = All-append (IsNot b'\n') xs (b ∷ []) hx (hb.0, tt) in
      let grown = length-append xs (b ∷ []) in
      rw (read_byte-within xs prev b ctx (omega arith)) (
        simp bind_assoc (
          bind_congr
            (char_cb ctx (add_all b_reset (xs ++ b ∷ [])) b (starts_plus (xs ++ b ∷ []))
              (isspace b))
            _ _
            λ ctx'. rw (
              test_line-inside xs prev b ctx' no_lf (ne_test b hb.0),
              read_all-feed bs (xs ++ b ∷ []) rest b ctx' no_lf hb.1 (omega arith),
              append_assoc,
            )))

  feed-append :
      (ys bs xs : Bytes) (ctx : C)
      → feed ctx xs (ys ++ bs) ≡ (feed ctx xs ys >>= λ c. feed c (xs ++ ys) bs)
  unfolding feed
  feed-append [] bs xs ctx = rw append-nil
  feed-append (a ∷ ys) bs xs ctx = simp bind_assoc (
      bind_congr
        (char_cb ctx (add_all b_reset (xs ++ a ∷ [])) a (starts_plus (xs ++ a ∷ [])) (isspace a)) _
        _ λ c. rw (feed-append ys bs (xs ++ a ∷ []) c, append_assoc))

  -- At the end of a line that is neither OK nor ERROR.
  test_line-end :
      (l : Bytes) (ctx : C)
      → IsPlain l
      → l ≢ codes "OK"
      → l ≢ codes "ERROR"
      → test_line isspace cb (within (l ++ crlf) b'\r' ctx) b'\n' ≡ (
          eol_cb ctx (add_all b_reset (l ++ crlf)) (starts_plus (l ++ crlf)) >>= λ ctx'.
          ok (continue (within [] b'\n' ctx')))
  unfolding test_line end_line b_is add_all
  test_line-end l ctx plain not_ok not_error =
      let held = (line_holds (l ++ crlf)).first in
      rw (
        held,
        not_prefix (codes "OK") l b'\n' [] plain.0 not_ok (omega arith),
        not_prefix (codes "ERROR") l b'\n' [] plain.0 not_error (omega arith),
        and_false (leb 4 (add_all b_reset (l ++ crlf)).size),
      )

  end_of_line :
      (l rest : Bytes) (ctx : C)
      → IsPlain l
      → l ≢ codes "OK"
      → l ≢ codes "ERROR"
      → length l < 60000
      → read_all isspace cb (within (l ++ b'\r' ∷ []) b'\r' ctx) (b'\n' ∷ rest) ≡ (
          feed ctx (l ++ b'\r' ∷ []) (b'\n' ∷ []) >>= λ c.
          eol_cb c (add_all b_reset (l ++ crlf)) (starts_plus (l ++ crlf)) >>= λ c'.
          read_all isspace cb (within [] b'\n' c') rest)
  unfolding read_all feed
  end_of_line l rest ctx plain not_ok not_error short =
      let e = append_assoc l (b'\r' ∷ []) (b'\n' ∷ []) in
      rw
        (
          read_byte-within (l ++ b'\r' ∷ []) b'\r' b'\n' ctx
              (omega (arith, length-append l (b'\r' ∷ []))),
          e,
        )
        (simp bind_assoc (
          bind_congr
            (char_cb ctx (add_all b_reset (l ++ crlf)) b'\n' (starts_plus (l ++ crlf))
              (isspace b'\n'))
            _ _
            λ c.
              rw (test_line-end l c plain not_ok not_error) (
                bind_assoc (eol_cb c (add_all b_reset (l ++ crlf)) (starts_plus (l ++ crlf))) _ _)))

  -- At the start of a line that is neither OK nor ERROR, holds no CR and no LF, has fewer than 60000
  -- bytes and ends in CR and LF, the loop makes its callbacks, byte by byte and then for its end,
  -- and goes on behind it with an empty buffer.
  pub read_all-line :
      (l rest : Bytes) (prev : ℕ) (ctx : C)
      → IsPlain l
      → l ≢ codes "OK"
      → l ≢ codes "ERROR"
      → length l < 60000
      → read_all isspace cb (within [] prev ctx) (l ++ (crlf ++ rest))
        ≡ (read_line ctx l >>= λ ctx'. read_all isspace cb (within [] b'\n' ctx') rest)
  unfolding read_line
  read_all-line l rest prev ctx plain not_ok not_error short =
      let e = sym (append_assoc l (b'\r' ∷ []) (b'\n' ∷ rest)) in
      let no_lf = All-append (IsNot b'\n') l (b'\r' ∷ []) plain.1 (omega arith) in
      let grown = length-append l (b'\r' ∷ []) in
      rw
        (
          e,
          read_all-feed (l ++ b'\r' ∷ []) [] (b'\n' ∷ rest) prev ctx tt no_lf (omega arith),
          ← append_assoc l (b'\r' ∷ []) (b'\n' ∷ []),
          feed-append (l ++ b'\r' ∷ []) (b'\n' ∷ []) [] ctx,
          last_or-append prev l b'\r',
        )
        (simp bind_assoc (
          bind_congr (feed ctx [] (l ++ b'\r' ∷ [])) _ _ λ c.
            rw (append_assoc l (b'\r' ∷ []) (b'\n' ∷ []))
              (end_of_line l rest c plain not_ok not_error short)))

  test_line-ok :
      (prev : ℕ) (ctx : C)
      → test_line isspace cb (within ok_line prev ctx) b'\n' ≡ ok (return at_ok ctx)
  unfolding test_line add_all b_add b_is is_prefix
  test_line-ok prev ctx = refl

  -- At OK the loop returns, and leaves what follows unread.
  pub read_all-ok :
      (rest : Bytes) (prev : ℕ) (ctx : C)
      → read_all isspace cb (within [] prev ctx) (ok_line ++ rest)
        ≡ (feed ctx [] ok_line >>= λ ctx'. ok (at_ok, ctx', rest))
  read_all-ok rest prev ctx =
      rw
        (
          read_all-feed (codes "OK\r") [] (b'\n' ∷ rest) prev ctx tt (omega arith) (omega arith),
          feed-append (codes "OK\r") (b'\n' ∷ []) [] ctx,
        )
        (simp bind_assoc (
          bind_congr (feed ctx [] (codes "OK\r")) _ _ λ c.
            unfold read_all feed in
            rw (read_byte-within (codes "OK\r") (last_or prev (codes "OK\r")) b'\n' c (omega arith))
              (simp bind_assoc (
                bind_congr (char_cb c (add_all b_reset ok_line) b'\n' false (isspace b'\n')) _ _
                  λ c'. rw (test_line-ok (last_or prev (codes "OK\r")) c')))))

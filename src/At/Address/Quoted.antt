-- ===== src/At/Address/Quoted.antt =====
-- What `cgpaddr_eol` takes of a line.
use air_quality_sensor_node.Base.{
  ◌≡◌, ◌≢◌, refl, true, false, [], ◌∷◌, ◌++◌, Bytes, ◌==◌, if◌then◌else◌, All, arith,
}
use air_quality_sensor_node.At.Address.{quoted}

abbrev pub without_quotes : Bytes → Bytes
without_quotes [] = []
without_quotes (c ∷ cs) = if c == b'"' then without_quotes cs else c ∷ without_quotes cs

quoted_open : (cs : Bytes) → quoted true cs ≡ without_quotes cs
unfolding quoted
quoted_open [] = refl
quoted_open (c ∷ cs) = ground (arith, quoted_open cs)

-- What is taken of a line is everything behind the first quotation mark but further quotation
-- marks: a closing one does not end the text.
pub quoted_lem :
    (before behind : Bytes)
    → All (λ c. c ≢ b'"') before
    → quoted false (before ++ b'"' ∷ behind) ≡ without_quotes behind
unfolding quoted
quoted_lem [] behind h = quoted_open behind
quoted_lem (c ∷ before) behind h = ground (arith, quoted_lem before behind h.1)

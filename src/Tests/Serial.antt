-- ===== src/Tests/Serial.antt =====
-- The receive path of the modem at concrete inputs.
use air_quality_sensor_node.Base.{
  ℕ, ◌≡◌, refl, true, [], ◌∷◌, Bytes, codes, length, replicate, none, some, arith,
}
use air_quality_sensor_node.Base.Int.{pos}
use air_quality_sensor_node.Base.Outcome.{ok}
use air_quality_sensor_node.Modem.Urc.{Comms, Thread, comms_handle_char, modem_read}
use air_quality_sensor_node.Modem.Urc.Interleaving.{
  Reachable, start, interrupt, reachable-Holds, modem_read_next, Holds,
}
use air_quality_sensor_node.Modem.Urc.Lines.{deliver, sent, deliver_lines}
use air_quality_sensor_node.Modem.Urc.Delivery.{rounds, rounds-nsonmi}
use air_quality_sensor_node.Tests.Kernel.{test_kernel, idle}
use air_quality_sensor_node.Tests.Platform.{test_libc}

abbrev waiting : Thread
waiting = record { buf = replicate 64 0; index = 0 }

abbrev plus : Comms (Bytes × ℕ) (ℕ × ℕ)
plus = record idle {
  prev = 43;
  in_urc = true;
  rx_rb = (43 ∷ [], 39);
  rx_sem = (1, 255);
  urc_rb = (43 ∷ [], 19);
  urc_sem = (1, 64);
}

plus_reached : Reachable test_kernel test_libc true plus waiting (43 ∷ []) []
unfolding comms_handle_char
plus_reached =
    interrupt 43 (start idle waiting refl refl refl refl (omega arith) (omega arith)) refl refl

reachable-Holds_example : Holds test_kernel plus (43 ∷ []) []
reachable-Holds_example = reachable-Holds test_kernel test_libc true plus_reached

modem_read_next_example :
    ((b : ℕ) (bs : Bytes)
      → ◌≡◌ {A = Bytes} (43 ∷ []) (b ∷ bs)
      → (modem_read test_kernel plus).1 ≡ some b)
    × (◌≡◌ {A = Bytes} (43 ∷ []) [] → modem_read test_kernel plus ≡ (plus, none))
modem_read_next_example = modem_read_next test_kernel test_libc true plus_reached

deliver_lines_example :
    ((deliver test_kernel (sent (codes "0" ∷ codes "+A" ∷ [])) idle).rx_rb.0
      ≡ sent (codes "0" ∷ codes "+A" ∷ []))
    × ((deliver test_kernel (sent (codes "0" ∷ codes "+A" ∷ [])) idle).urc_rb.0 ≡ codes "+A\r")
deliver_lines_example =
    deliver_lines test_kernel (codes "0" ∷ codes "+A" ∷ []) idle
      ((refl, tt), ((refl, (refl, tt)), tt)) refl refl (omega arith) (omega arith)

rounds-nsonmi_example :
    (c' : Comms (Bytes × ℕ) (ℕ × ℕ)) × (t' : Thread) × (rounds test_kernel test_libc true 14
        (deliver test_kernel (codes "+NSONMI: 1,12\r\n") idle)
        waiting
      ≡ ok (c', t', (pos 1, pos 12) ∷ []))
    × (c'.urc_rb.0 ≡ [])
    × (c'.rx_rb.0 ≡ codes "+NSONMI: 1,12\r\n")
    × (t'.index ≡ 0)
    × (length t'.buf ≡ 64)
rounds-nsonmi_example =
    rounds-nsonmi test_kernel test_libc 32 (codes "1") (codes "12")
      (start idle waiting refl refl refl refl (omega arith) (omega arith)) refl refl refl refl refl
      refl refl (refl, tt) (refl, (refl, tt)) (omega arith) (omega arith) (omega arith)
      (omega arith) (omega arith)

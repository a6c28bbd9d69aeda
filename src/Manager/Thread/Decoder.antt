-- ===== src/Manager/Thread/Decoder.antt =====
-- A decoder of frames, as a function of one byte after the other: what the main loop's receiver
-- promises, without its order of accesses, the calls and the interrupts.
use freaky_camper_arduino.Base.{
  ℕ, ◌+◌, ◌%◌, ltb, ◌==◌, ◌&&◌, if◌then◌else◌, false, List, [], ◌∷◌, ◌++◌, set, take,
}
use freaky_camper_arduino.Machine.{Machine, Link}
use freaky_camper_arduino.Protocol.{prot_header, prot_footer, prot_repeat_header}

pub record Decoder : Type 0 where
  pub link : Link
  pub rx : List ℕ

abbrev pub decoder : Machine → Decoder
decoder m = record { link = m.link; rx = m.comm.rx_buffer }

-- After a header byte, which has cleared the count of footers: the count of headers goes up to four,
-- the data start again, and are expected from the fourth header byte on.
abbrev pub with_ready : Decoder → Decoder
with_ready d = record d {
  link = record d.link { ready_for_datas = d.link.header_count == prot_repeat_header };
}

abbrev pub restarted : Decoder → Decoder
restarted d =
    with_ready
      (if d.link.ready_for_datas then record d { link = record d.link { rx_counter = 0 } } else d)

abbrev pub counted : Decoder → Decoder
counted d = restarted (
    if ltb d.link.header_count prot_repeat_header
    then record d { link = record d.link { header_count = d.link.header_count + 1 } }
    else d)

abbrev pub heard : Decoder → Decoder
heard d = counted (record d { link = record d.link { footer_count = 0 } })

-- Between two frames.
abbrev pub ended : Decoder → Decoder
ended d = record d {
  link = record d.link { footer_count = 0; ready_for_datas = false; rx_counter = 0 };
}

-- After a footer byte, which has been counted: the fourth ends the frame, whose data are executed.
abbrev pub judged : Decoder → Decoder
judged d = if d.link.footer_count == prot_repeat_header then ended d else d

abbrev pub payload : Decoder → List (List ℕ)
payload d =
    if d.link.footer_count == prot_repeat_header then take d.link.rx_counter d.rx ∷ [] else []

abbrev pub raised : ℕ → Decoder → Decoder
raised n d = record d { link = record d.link { footer_count = (n + 1) % 256; header_count = 0 } }

-- After a byte of data.
abbrev pub stored : ℕ → Decoder → Decoder
stored b d = record {
  link = record d.link { rx_counter = (d.link.rx_counter + 1) % 256 };
  rx = set d.rx d.link.rx_counter b;
}

-- One byte.
unfoldable pub decode : ℕ → Decoder → Decoder
decode b d =
    if b == prot_header
    then heard d
    else if d.link.ready_for_datas && b == prot_footer
    then judged (raised d.link.footer_count d)
    else if d.link.ready_for_datas
    then stored b d
    else d

-- What it completes.
unfoldable pub completed : ℕ → Decoder → List (List ℕ)
completed b d =
    if b == prot_header
    then []
    else if d.link.ready_for_datas && b == prot_footer
    then payload (raised d.link.footer_count d)
    else []

-- A series of bytes, and the payloads that it completes.
abbrev pub decoded : Decoder → List ℕ → Decoder
decoded d [] = d
decoded d (b ∷ bs) = decoded (decode b d) bs

abbrev pub payloads : Decoder → List ℕ → List (List ℕ)
payloads d [] = []
payloads d (b ∷ bs) = completed b d ++ payloads (decode b d) bs

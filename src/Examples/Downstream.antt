-- ===== src/Examples/Downstream.antt =====
-- Two frames for the web view, written and read.
use quad_control.Base.{◌≡◌, refl, true, List, [], ◌∷◌, ◌++◌, none, some, ok, arith, length}
use quad_control.Base.Text.{Text, codes}
use quad_control.Ios.Frames.{Utf8}
use quad_control.Ios.Downstream.{Connection, crlf, response_head, part, write_downstream}
use quad_control.Ios.Downstream.ReadBack.{read_frames, write_downstream-read_frames}

abbrev ascii : Utf8
ascii = record { decode = λ t. ok t; encode = λ t. t }

abbrev web_view : Connection
web_view = record {
  can_clone = true;
  request = some (codes "GET / HTTP/1.1\r\n") ∷ some crlf ∷ [];
  accepts = λ i. true;
}

abbrev frames : List Text
frames = codes "jpg1\n" ∷ codes "jpg2" ∷ []

write_downstream-read_frames_example :
    (sent : Text) × ((write_downstream web_view frames).bytes ≡ response_head ++ sent)
    × (read_frames ascii (length frames) (record { bytes = sent; failure = none }) ≡ frames)
write_downstream-read_frames_example =
    write_downstream-read_frames ascii (λ t h. refl) web_view refl (unfold write_downstream in refl)
      (λ i. refl) frames (omega arith)

part_of_two :
    part (codes "ab")
    ≡ codes "--quadcontrolframe\r\nContent-Type: image/jpeg\r\nContent-Length: 2\r\n\r\nab\r\n"
unfolding part
part_of_two = refl

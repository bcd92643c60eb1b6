-- ===== src/Examples/GoIos.antt =====
-- Outputs of go-ios, and streams of frames, for crates/quadcontrol-ios/src/{lib,devices,mjpeg}.rs.
use quad_control.Base.{◌≡◌, refl, true, [], ◌∷◌, Option, none, some, ok, Holds}
use quad_control.Base.Text.{Text, codes}
use quad_control.Ios.GoIos.Version.{
  check_version, IsSupported, check_version-IsSupported, parse_token,
}
use quad_control.Ios.GoIos.Devices.{parse_ios_devices, udids_of, Lists, parse_ios_devices-Lists}
use quad_control.Ios.GoIos.Apps.{parse_installed_apps}
use quad_control.Ios.GoIos.Capture.{
  Process, Captured, run_capture_stdout, run_capture_stdout-Captured,
}
use quad_control.Ios.Frames.{Utf8, Stream, Waits, read_frame}
use quad_control.Ios.Frames.Laws.{IsFrame, read_frame-IsFrame}
use quad_control.Ios.Frames.Pump.{boundary_of}

check_version-IsSupported_run : Holds IsSupported (
    check_version
      (λ t. ok t)
      (λ j. some j)
      (codes "ios")
      (ok (record { status = some 0; stdout = codes "v1.3"; stderr = [] })))
check_version-IsSupported_run =
    check_version-IsSupported (λ t. ok t) (λ j. some j) (codes "ios")
      (ok (record { status = some 0; stdout = codes "v1.3"; stderr = [] }))

newer :
    parse_token (codes " v1.3 ")
    ≡ ok (record { major = 1; minor = 3; patch = 0; newer_than_verified = true })
unfolding parse_token
newer = refl

abbrev listing : Text
listing = codes "{\"deviceList\":[\"ABCD0001\", \"ABCD0002\"]}"

parse_ios_devices-Lists_run : Holds (Lists (udids_of listing)) (parse_ios_devices listing)
parse_ios_devices-Lists_run = parse_ios_devices-Lists listing

two_devices :
    parse_ios_devices listing
    ≡ ok (
        record { id = codes "ABCD0001"; name = codes "iPhone ····0001" }
        ∷ record { id = codes "ABCD0002"; name = codes "iPhone ····0002" }
        ∷ [])
unfolding parse_ios_devices
two_devices = refl

abbrev slow : Process
slow = record {
  spawn = ok tt;
  try_wait = λ now. ok none;
  wait = ok none;
  stdout = codes "part";
  lag = λ now. 3;
}

run_capture_stdout-Captured_example : Captured slow 10000 (run_capture_stdout slow 10000 0)
run_capture_stdout-Captured_example = run_capture_stdout-Captured slow 10000 0

apps_read :
    parse_installed_apps (codes "Bundle Version\ncom.google.chrome Google Chrome 153.0\n")
    ≡ record { bundle_id = codes "com.google.chrome"; name = codes "Google Chrome" } ∷ []
unfolding parse_installed_apps
apps_read = refl

abbrev ascii : Utf8
ascii = record { decode = λ t. ok t; encode = λ t. t }

abbrev stream : Text → Stream
stream t = record { bytes = t; failure = none }

abbrev measured : Stream
measured = stream (codes "--b\r\nContent-Length: 3\r\n\r\nabc\r\n--b\r\n")

read_frame-IsFrame_example : IsFrame ascii measured (read_frame ascii (codes "b") measured)
read_frame-IsFrame_example = read_frame-IsFrame ascii (codes "b") measured

frame_read :
    read_frame ascii (codes "b") measured
    ≡ some (stream (codes "\r\n--b\r\n"), ok (some (codes "abc")))
unfolding read_frame
frame_read = refl

-- Parts without a length. The scan for the end of the first takes the boundary of the second, so the
-- second is skipped.
abbrev unmeasured : Stream
unmeasured = stream (codes "--b\r\n\r\nX\r\n--b\r\n\r\nY\r\n--b\r\n\r\nZ\r\n--b--\r\n")

abbrev frame_of : Waits Text → Option Text
frame_of (some (s, ok frame)) = frame
frame_of _ = none

abbrev next_of : Waits Text → Stream
next_of (some (s, _)) = s
next_of none = stream []

first_part : frame_of (read_frame ascii (codes "b") unmeasured) ≡ some (codes "X")
unfolding read_frame
first_part = refl

second_part_lost :
    frame_of (read_frame ascii (codes "b") (next_of (read_frame ascii (codes "b") unmeasured)))
    ≡ some (codes "Z")
unfolding read_frame
second_part_lost = refl

boundary_read :
    boundary_of (some (codes "multipart/x-mixed-replace; boundary=--BoundaryString"))
    ≡ ok (codes "BoundaryString")
unfolding boundary_of
boundary_read = refl

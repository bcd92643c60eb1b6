-- ===== src/Examples/Session.antt =====
-- A session of crates/quadcontrol-ios/src/session.rs whose processes heed the first signal: the tunnel is there
-- after 300 ms, the device's server after 1200 ms, and a stop is requested after 2000 ms.
use quad_control.Base.{
  ◌+◌, ◌≡◌, refl, true, false, not, List, [], ◌∷◌, Option, none, some, ok, leb, is_empty, length,
  arith,
}
use quad_control.Base.Text.{Text, codes}
use quad_control.Ios.Error.{tunnel_failed, code}
use quad_control.Ios.Session.{
  IosSessionStatus, starting, running, stopping, exited, failed, requested, run_wda, forward_http,
  WdaIds, launch, IosLaunchOptions, Machine, World,
}
use quad_control.Ios.Session.Classify.{classify_child_failure, first_failure}
use quad_control.Ios.Session.Spawn.{spawn_forward}
use quad_control.Ios.Session.Start.{await_from}
use quad_control.Ios.Session.Run.{supervise, begin}
use quad_control.Ios.Session.Hoare.{Then}
use quad_control.Ios.Session.Held.{AreBound}
use quad_control.Ios.Session.Closing.{IsCleared, History, Reaches}
use quad_control.Ios.Session.Ended.{supervise-IsCleared, supervise-History, supervise-AreBound}
use quad_control.Ios.Session.Liveness.{supervise-stops}
use quad_control.Ios.Session.EarlyStop.{supervise_early_stop}
use quad_control.Ios.Session.Outcomes.{Caused, Failed, await_from-Caused}
use quad_control.Ios.Session.Forwards.{Adopted, Grown, spawn_forward-Adopted}

abbrev machine : Machine
machine = record {
  os = record {
    exits = λ pid sent now. not (is_empty sent);
    escalated = λ now. false;
    lag = λ now. 1;
    wait_answer = λ pid sent. ok tt;
    wait_time = λ pid sent. 0;
  };
  exit_status = λ pid. some 0;
  stderr_tail = λ pid. codes "bye";
  spawn = λ n. ok tt;
  io_text = λ e. [];
  free_port = λ n. ok (40000 + n);
  stop_at = some 2000;
  tunnel_is_registered = λ now. leb 300 now;
  answers_status = λ now. leb 1200 now;
  create_session = λ port now. ok tt;
  configure_mjpeg = λ port fps quality now. ok tt;
  start_proxy = λ port now. ok 50000;
  proxy_stats = λ now. record { frames = now; backpressure_drops = 0; last_frame_at = none };
  proxy_failure = λ now. none;
  proxy_is_alive = λ now. true;
}

abbrev wda : WdaIds
wda = record {
  bundle_id = codes "org.example.wda";
  testrunner_id = codes "org.example.wda.xctrunner";
  xctestconfig = codes "WebDriverAgentRunner.xctest";
}

abbrev options : IosLaunchOptions
options = record {
  udid = codes "0123";
  mode = launch (codes "ios") wda;
  tunnel_info_port = 28100;
  tunnel_ready_budget = 10000;
  status_budget = 60000;
}

supervise-stops_example :
    (w : World) × (supervise machine 41 options (begin 0) ≡ some w) × IsCleared w
supervise-stops_example =
    supervise-stops machine 1 (λ t. omega arith) 2000 40 0 options refl (omega arith)

supervise-IsCleared_example : Reaches IsCleared (supervise machine 41 options (begin 0))
supervise-IsCleared_example = supervise-IsCleared machine options 41 0

supervise-History_example : Reaches History (supervise machine 41 options (begin 0))
supervise-History_example = supervise-History machine options 41 0

supervise-AreBound_example : Reaches (AreBound options) (supervise machine 41 options (begin 0))
supervise-AreBound_example = supervise-AreBound machine options 41 0

-- what the handle has shown
abbrev shown : Option World → List Text
shown none = []
shown (some w) = names w.statuses
  where
    name : IosSessionStatus → Text
    name starting = codes "starting"
    name (running port) = codes "running"
    name stopping = codes "stopping"
    name (exited reason) = codes "exited"
    name (failed c) = c

    names : List IosSessionStatus → List Text
    names [] = []
    names (s ∷ ss) = name s ∷ names ss

session_runs :
    shown (supervise machine 41 options (begin 0))
    ≡ codes "exited" ∷ codes "stopping" ∷ codes "running" ∷ codes "starting" ∷ []
unfolding supervise begin first_failure
session_runs = refl

abbrev hasty : Machine
hasty = record machine { stop_at = some 0 }

supervise_early_stop_run :
    (w : World) × (supervise hasty 1 options (begin 0) ≡ some w)
    × (w.statuses ≡ exited requested ∷ stopping ∷ starting ∷ [])
    × (w.waited ≡ 0 ∷ [])
    × (length w.started ≡ 1)
supervise_early_stop_run =
    supervise_early_stop hasty options (codes "ios") wda 1 (λ t. omega arith) 0 1 0 refl refl refl
      refl

await_from-Caused_example :
    Then
      (Caused machine machine.tunnel_is_registered 100 10000 (tunnel_failed []))
      (Failed machine machine.tunnel_is_registered 100 10000 (tunnel_failed []))
      (await_from machine 101 machine.tunnel_is_registered 100 10000 (tunnel_failed []) (begin 0))
await_from-Caused_example =
    await_from-Caused machine machine.tunnel_is_registered 100 10000 (tunnel_failed []) 101
      (begin 0)

spawn_forward-Adopted_example :
    Then
      (λ port. Adopted forward_http 5 (begin 0))
      (λ e. Grown 5 (begin 0))
      (spawn_forward machine forward_http 8100 options (codes "ios") (begin 0))
spawn_forward-Adopted_example =
    spawn_forward-Adopted machine forward_http 8100 options (codes "ios") (begin 0)

expired_signature :
    code (classify_child_failure run_wda (codes "The Certificate used to sign has Expired"))
    ≡ codes "wda_signature_expired"
unfolding code classify_child_failure
expired_signature = refl

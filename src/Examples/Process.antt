-- ===== src/Examples/Process.antt =====
-- Two children, of which one heeds no signal below SIGKILL, for crates/quadcontrol-process/src/lib.rs.
use quad_control.Base.{
  ◌≡◌, refl, true, false, List, [], ◌∷◌, some, Result, ok, err, arith, ◌==◌, is_empty, not, leb,
  ◌&&◌, all, if◌then◌else◌,
}
use quad_control.Base.Text.{Text, codes}
use quad_control.Os.{IoError, other}
use quad_control.Process.Ring.{drain_stderr, new, last, stream, drain_stderr-last}
use quad_control.Process.Ladder.{
  sigterm, Env, World, send, kill_rung, asked, has_exited, terminate, terminate_all,
}
use quad_control.Process.Ladder.Laws.{Ends, terminate-Ends, terminate_all-Ends}
use quad_control.Process.Ladder.Hurried.{terminate_all-hurried}

abbrev read : List (Result Text IoError)
read = ok (codes "abc") ∷ ok (codes "de") ∷ err (other 5) ∷ ok (codes "f") ∷ []

drain_stderr-last_example : (drain_stderr read (new 4)).bytes ≡ last 4 (stream read)
drain_stderr-last_example = drain_stderr-last 4 read (omega arith)

tail_kept : (drain_stderr read (new 4)).bytes ≡ codes "bcde"
unfolding drain_stderr new
tail_kept = refl

-- Child 1 exits at any signal, 150 ms later; child 2 exits for none.
abbrev stubborn : Env
stubborn = record {
  exits = λ pid sent now. pid == 1 && not (is_empty sent) && leb 150 now;
  escalated = λ now. false;
  lag = λ now. 1;
  wait_answer = λ pid sent. ok tt;
  wait_time = λ pid sent. 30;
}

abbrev first_world : World
first_world = record { now = 0; sent = [] }

terminate-Ends_run :
    Ends stubborn 1 (λ t. omega arith) (1 ∷ []) first_world (terminate stubborn 1 first_world)
terminate-Ends_run = terminate-Ends stubborn 1 (λ t. omega arith) 1 first_world

terminate_all-Ends_example :
    Ends stubborn 1
      (λ t. omega arith)
      (1 ∷ 2 ∷ [])
      first_world
      (terminate_all stubborn (1 ∷ 2 ∷ []) first_world)
terminate_all-Ends_example =
    terminate_all-Ends stubborn 1 (λ t. omega arith) (1 ∷ 2 ∷ []) first_world

abbrev urged : Env
urged = record stubborn { escalated = λ now. true }

terminate_all-hurried_run : terminate_all urged (1 ∷ 2 ∷ []) first_world ≡ (
    let w₁ = send sigterm (1 ∷ 2 ∷ []) (asked urged first_world) in
    if all (has_exited urged w₁) (1 ∷ 2 ∷ [])
    then some (w₁, ok tt)
    else kill_rung urged (1 ∷ 2 ∷ []) (asked urged w₁))
terminate_all-hurried_run = terminate_all-hurried urged (λ t. refl) (1 ∷ 2 ∷ []) first_world

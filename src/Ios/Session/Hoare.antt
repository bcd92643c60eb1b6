-- ===== src/Ios/Session/Hoare.antt =====
-- What holds of the world after an action, and the rules to show it part by part.
use quad_control.Base.{Bool, true, false, Option, none, some, Result, ok, err, if◌then◌else◌}
use quad_control.Ios.Error.{Error}
use quad_control.Ios.Session.{World, Action, or_raise, modify, ◌>>=◌, continue}

-- the two ends of an action that has not reached its bound
abbrev pub Then :
    {A : Type 0}
    → (A → World → Type 0)
    → (Error → World → Type 0)
    → Option (World × Result A Error)
    → Type 0
Then P E none = Unit
Then P E (some (w, ok a)) = P a w
Then P E (some (w, err e)) = E e w

-- the same of the world at both ends
abbrev pub After : {A : Type 0} → (World → Type 0) → Option (World × Result A Error) → Type 0
After I = Then (λ a. I) (λ e. I)

pub bind-Then :
    {A B : Type 0} (P : A → World → Type 0) (Q : B → World → Type 0) (E : Error → World → Type 0)
    (o : Option (World × Result A Error)) (f : A → Action B)
    → Then P E o
    → ((a : A) (w : World) → P a w → Then Q E (f a w))
    → Then Q E (continue o f)
bind-Then P Q E none f h g = tt
bind-Then P Q E (some (w, ok a)) f h g = g a w h
bind-Then P Q E (some (w, err e)) f h g = h

pub map-Then :
    {A : Type 0} (P P' : A → World → Type 0) (E E' : Error → World → Type 0)
    (o : Option (World × Result A Error))
    → ((a : A) (w : World) → P a w → P' a w)
    → ((e : Error) (w : World) → E e w → E' e w)
    → Then P E o
    → Then P' E' o
map-Then P P' E E' none f g h = tt
map-Then P P' E E' (some (w, ok a)) f g h = f a w h
map-Then P P' E E' (some (w, err e)) f g h = g e w h

module _ (I : World → Type 0) where
  -- an action that keeps `I`
  abbrev pub Keeps : {A : Type 0} → Action A → Type 0
  Keeps m = (w : World) → I w → After I (m w)

  pub bind-Keeps :
      {A B : Type 0} (m : Action A) (f : A → Action B)
      → Keeps m
      → ((a : A) → Keeps (f a))
      → Keeps (m >>= f)
  bind-Keeps m f km kf w h = bind-Then (λ a. I) (λ b. I) (λ e. I) (m w) f (km w h) kf

  pub or_raise-Keeps : {A : Type 0} (r : Result A Error) → Keeps (or_raise r)
  or_raise-Keeps (ok a) w h = h
  or_raise-Keeps (err e) w h = h

  pub modify-Keeps : (f : World → World) → ((w : World) → I w → I (f w)) → Keeps (modify f)
  modify-Keeps f k w h = k w h

  pub if-Keeps :
      {A : Type 0} (b : Bool) (m n : Action A) → Keeps m → Keeps n → Keeps (if b then m else n)
  if-Keeps true m n km kn = km
  if-Keeps false m n km kn = kn

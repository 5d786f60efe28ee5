-- ===== src/Proxy/Pipeline/Stages.antt =====
-- Reasoning about stages: what holds at an early return, and what holds when the stage goes on.
use proxy_scope.Proxy.Forward.{Work, Stage, returned, goes_on, ◌>>=◌}
use proxy_scope.Proxy.Pipeline.{last}

abbrev pub Ends : {A : Type 0} → (Work → Type 0) → (Work → A → Type 0) → Stage A → Type 0
Ends P Q (returned w) = P w
Ends P Q (goes_on w a) = Q w a

pub bind-Ends :
    {A B : Type 0} (P : Work → Type 0) (Q : Work → A → Type 0) (R : Work → B → Type 0) (m : Stage A)
    (f : Work → A → Stage B)
    → Ends P Q m
    → ((w : Work) (a : A) → Q w a → Ends P R (f w a))
    → Ends P R (m >>= f)
bind-Ends P Q R (returned w) f e h = e
bind-Ends P Q R (goes_on w a) f e h = h w a e

pub last-Ends : (P : Work → Type 0) (m : Stage Work) → Ends P (λ w w'. P w') m → P (last m)
last-Ends P (returned w) e = e
last-Ends P (goes_on w w') e = e

-- ===== src/RateLimit.antt =====
-- The limit on requests: util/ratelimit/ratelimit.go. The clock, in seconds, is an argument, and an
-- address is a number. The counter stays within its type.
use virel_blockchain.Base.{
  ℕ, ◌+◌, ◌≤◌, ◌≡◌, Bool, true, false, Option, none, some, [], ltb, if◌then◌else◌, arith,
}
use virel_blockchain.Base.Dict.{Dict, lookup, insert}

pub record Info : Type 0 where
  pub count : ℕ
  pub last_clear : ℕ
  pub ban_ends : ℕ

pub record Limit : Type 0 where
  pub max_per_minute : ℕ
  pub info : Dict Info

abbrev pub new_limit : (max_per_minute : ℕ) → Limit
new_limit max_per_minute = record { max_per_minute = max_per_minute; info = [] }

abbrev pub info_or_new : Option Info → Info
info_or_new none = record { count = 0; last_clear = 0; ban_ends = 0 }
info_or_new (some inf) = inf

-- The answer and the entry as it is left.
unfoldable pub act : (max_per_minute now amount : ℕ) → Info → Bool × Info
act max_per_minute now amount inf =
    if ltb now inf.ban_ends
    then (false, inf)
    else if ltb (inf.last_clear + 60) now
    then (true, record inf { last_clear = now; count = 0 })
    else (let counted = record inf { count = inf.count + amount } in
        if ltb max_per_minute counted.count
        then (false, record counted { ban_ends = now + 120 })
        else (true, counted))

unfoldable pub can_act : (now ip amount : ℕ) → Limit → Bool × Limit
can_act now ip amount l =
    let (answer, inf) = act l.max_per_minute now amount (info_or_new (lookup ip l.info)) in
    (answer, record l { info = insert ip inf l.info })

-- From a count within the limit, a call that is allowed leaves a count within the limit.
pub act-within :
    (max now amount : ℕ) (inf : Info)
    → inf.count ≤ max
    → (act max now amount inf).0 ≡ true
    → (act max now amount inf).1.count ≤ max
unfolding act
act-within max now amount inf h e = ground arith

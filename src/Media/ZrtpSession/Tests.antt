-- ===== src/Media/ZrtpSession/Tests.antt =====
-- The resends of zrtp_session.rs for a caller whose Hello is never answered.
use dee_lip.Prelude.{ℕ, ◌≡◌, refl, some, List, [], ◌∷◌, replicate, arith}
use dee_lip.Zrtp.Cache.{MemorySharedSecretStore}
use dee_lip.Zrtp.Engine.Types.{initiator}
use dee_lip.Zrtp.Engine.Build.{new}
use dee_lip.Zrtp.Engine.Toy.{toy}
use dee_lip.Media.ZrtpSession.{ZrtpRuntime, tick_all}
use dee_lip.Media.ZrtpSession.Retries.{give_up, IsPaced, tick_all-give_up}

abbrev hello_bytes : List ℕ
hello_bytes = 0x50 ∷ 0x5a ∷ []

abbrev waiting : ZrtpRuntime ℕ MemorySharedSecretStore
waiting = record {
  engine =
      new toy initiator (replicate 12 1) (replicate 16 32) (replicate 32 5)
        (record { entries = [] });
  pending_resend = some (hello_bytes, 13);
  next_resend_at = 300;
}

abbrev instants : List ℕ
instants = 300 ∷ 620 ∷ 920 ∷ 1300 ∷ []

instants-IsPaced : IsPaced 300 instants
unfolding IsPaced
instants-IsPaced = (omega arith, (omega arith, (omega arith, (omega arith, tt))))

tick_all-give_up_example : tick_all instants waiting ≡ give_up hello_bytes 2 instants
tick_all-give_up_example =
    tick_all-give_up 2 13 hello_bytes instants waiting refl refl instants-IsPaced

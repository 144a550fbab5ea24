-- ===== src/Examples/Recovering.antt =====
-- An account on one machine, and its phrase on another.
use lluma.Common.{same, ◌≡◌, refl, none, Option, Bytes, codes, ok, replicate}
use lluma.Crypto.Keystore.{
  account_mnemonic_new, seal_keystore, derive_keypair_from_seed, mnemonic_to_phrase,
  mnemonic_from_phrase,
}
use lluma.Desktop.Wallet.{put}
use lluma.Desktop.Account.{
  Account, create, import_phrase, unlock, recovery_phrase, persist, from_mnemonic,
}
use lluma.Desktop.Account.Recovery.{import_phrase-recovery_phrase, create-unlock, IsAccount}
use lluma.Examples.Instances.{primitives}
use lluma.Examples.Keeping.{vault, twelve_words, zeros16}
use lluma.Examples.Chatting.{files}

abbrev account : Account
account = record {
  sk = replicate 32 4;
  pk = primitives.public_of (replicate 32 4);
  mnemonic = zeros16;
}

abbrev first_disk : Option Bytes
first_disk = (create tt none (codes "pass")).1.1

abbrev second_disk : Option Bytes
second_disk = (import_phrase tt none twelve_words (codes "other")).1.1

created : create tt none (codes "pass") ≡ (ok account, (tt, first_disk))
unfolding create account_mnemonic_new persist seal_keystore put from_mnemonic
    derive_keypair_from_seed same
created = refl

create-unlock_example : (unlock first_disk (codes "pass") ≡ ok account) × IsAccount account
create-unlock_example = create-unlock tt tt none first_disk (codes "pass") account created

import_phrase-recovery_phrase_example :
    (account ≡ account) × (unlock second_disk (codes "other") ≡ ok account)
unfolding recovery_phrase import_phrase mnemonic_to_phrase same mnemonic_from_phrase persist
    seal_keystore put from_mnemonic derive_keypair_from_seed
import_phrase-recovery_phrase_example =
    import_phrase-recovery_phrase account account twelve_words (codes "other") tt tt none
      second_disk (create-unlock tt tt none first_disk (codes "pass") account created).1 refl refl

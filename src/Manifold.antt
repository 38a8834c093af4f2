-- ===== src/Manifold.antt =====
-- The publish/subscribe router of dtmc_base_library/src/dtmanifold.c: its types, and the functions
-- of other code that it calls. The operations stand in the children.
pub mod Table
pub mod Api
pub mod Publish
pub mod Update
pub mod Lookup
pub mod Subscriptions
pub mod Subscribe
pub mod Distinct
pub mod Unsubscribe
pub mod Runs
pub mod Room
pub mod EmptyName
pub mod Fanout
pub mod Single
pub mod Locking
pub mod Tests
use dtmc_base.Common.{ℕ, List, [], ◌∷◌, Dterr, replicate, Bool, true, false, ◌&&◌, ◌==◌}

-- Pointers are numbers, and NULL is 0: recipients, functions and semaphores are only compared and
-- passed on.
abbrev pub Pointer : Type 0
Pointer = ℕ

-- A C string, by its bytes before the terminator.
abbrev pub CString : Type 0
CString = List ℕ

-- `dtmanifold_recipient_t`.
pub record Recipient : Type 0 where
  pub recipient_self : Pointer
  pub newbuffer_callback : Pointer

-- `dtmanifold_subject_t`. The name is the string that the array holds.
pub record Subject : Type 0 where
  pub subject_name : CString
  pub recipients : List Recipient

-- `dtmanifold_t`.
pub record Manifold : Type 0 where
  pub subjects : List Subject
  pub semaphore_handle : Pointer
  pub semaphore_timeout : ℕ

abbrev pub max_subjects : ℕ
max_subjects = 10

abbrev pub max_recipients : ℕ
max_recipients = 10

-- `DTMANIFOLD_SUBJECT_NAME_CAP`, the size of the name's array.
abbrev pub subject_name_cap : ℕ
subject_name_cap = 65

abbrev pub no_recipient : Recipient
no_recipient = record { recipient_self = 0; newbuffer_callback = 0 }

abbrev pub no_subject : Subject
no_subject = record { subject_name = []; recipients = replicate max_recipients no_recipient }

-- What other code does to the world `W` and, where a callback uses the router, to the router:
-- `dtsemaphore_wait` and `dtsemaphore_post` on a handle, `dtbuffer_create` for a length, and the
-- function at a callback's address on the recipient, the subject and the bytes of its own copy.
pub record System (W : Type 0) : Type 0 where
  pub wait : Pointer → ℕ → W → Dterr × W
  pub post : Pointer → W → W
  pub create_buffer : ℕ → W → Dterr × W
  pub call : Pointer → Pointer → CString → List ℕ → Manifold → W → Dterr × Manifold × W

-- `strcmp (a, b) == 0`.
unfoldable pub string_eq : CString → CString → Bool
string_eq [] [] = true
string_eq (a ∷ as') (b ∷ bs) = a == b && string_eq as' bs
string_eq _ _ = false

-- `s[0] == '\0'`.
abbrev pub is_empty : CString → Bool
is_empty [] = true
is_empty (c ∷ cs) = false

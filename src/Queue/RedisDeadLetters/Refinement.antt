-- ===== src/Queue/RedisDeadLetters/Refinement.antt =====
-- The dead letters in the Redis hash, as a map from IDs to letters.
use think_pixel_llmgw.Prelude.{
  ℕ, String, str_eq, ◌≡◌, refl, sym, ap, ◌∙◌, fun_ext, Bool-cases, inl, inr, Option, none, some,
  List, [], ◌∷◌, pos, All, if◌then◌else◌,
}
use think_pixel_llmgw.Redis.{Link, replied, refused, reply_lost, RedisHashes, entry_at}
use think_pixel_llmgw.Queue.{DeadLetterItem}
use think_pixel_llmgw.Queue.DeadLetter.{find_letter}
use think_pixel_llmgw.Queue.RedisQueue.{RedisReply, answered, failed, blocked}
use think_pixel_llmgw.Queue.RedisDeadLetters.{new_letter, letters_of, stored, add, list, remove}

pub data DeadLetterCall {ℓ} (A : Type ℓ) : Type ℓ where
  add_call : Link → String → ℕ → A → String → DeadLetterCall A
  remove_call : Link → String → DeadLetterCall A

abbrev pub put {ℓ} : {V : Type ℓ} → String → Option V → (String → Option V) → String → Option V
put id value m j = if str_eq id j then value else m j

abbrev pub decode_entry {ℓ} :
    {T B : Type ℓ} → (T → Option (DeadLetterItem B)) → Option T → Option (DeadLetterItem B)
decode_entry unmarshal none = none
decode_entry unmarshal (some v) = unmarshal v

module _ {ℓ} {R T : Type ℓ} (hs : RedisHashes R T) {A B : Type ℓ}
    (marshal : DeadLetterItem A → Option T) (unmarshal : T → Option (DeadLetterItem B))
    (decoded : A → B) (key : String) where
  -- What is written can be read, with its item decoded.
  abbrev pub IsReadable : Type ℓ
  IsReadable =
      (id : String) (now : ℕ) (item : A) (error : String) (v : T)
      → marshal (new_letter id now item error) ≡ some v
      → unmarshal v ≡ some (new_letter id now (decoded item) error)

  -- The value can be read, and its letter has the field as its ID.
  abbrev pub Named : String × T → Type ℓ
  Named e = (d : DeadLetterItem B) × (unmarshal (e.1) ≡ some d) × (d.id ≡ e.0)

  abbrev pub IsNamed : R → Type ℓ
  IsNamed r = All Named (hs.hgetall r key)

  abbrev pub found_in : String → RedisReply (List (DeadLetterItem B)) → Option (DeadLetterItem B)
  found_in j (answered ds) = find_letter j ds
  found_in j failed = none
  found_in j blocked = none

  -- What List, without a maximum, has under an ID.
  abbrev pub letter_at : R → String → Option (DeadLetterItem B)
  letter_at r j = found_in j (list hs unmarshal r key replied (pos 0))

  unfoldable pub perform : R → DeadLetterCall A → R
  unfolding add remove
  perform r (add_call link id now item error) = (add hs marshal r key link id now item error).0
  perform r (remove_call link id) = (remove hs r key link id).0

  unfoldable pub perform_all : R → List (DeadLetterCall A) → R
  unfolding perform
  perform_all r [] = r
  perform_all r (c ∷ cs) = perform_all (perform r c) cs

  -- The same calls on a map: what is not written or not run changes nothing.
  abbrev pub write :
      Link
      → String
      → Option T
      → DeadLetterItem B
      → (String → Option (DeadLetterItem B))
      → String
      → Option (DeadLetterItem B)
  write refused id v d m = m
  write _ id none d m = m
  write _ id (some v) d m = put id (some d) m

  abbrev pub apply :
      (String → Option (DeadLetterItem B)) → DeadLetterCall A → String → Option (DeadLetterItem B)
  apply m (add_call link id now item error) =
      write link id (marshal (new_letter id now item error))
        (new_letter id now (decoded item) error) m
  apply m (remove_call refused id) = m
  apply m (remove_call _ id) = put id none m

  abbrev pub apply_all :
      (String → Option (DeadLetterItem B))
      → List (DeadLetterCall A)
      → String
      → Option (DeadLetterItem B)
  apply_all m [] = m
  apply_all m (c ∷ cs) = apply_all (apply m c) cs

  find_letter-letters_of :
      (j : String) (es : List (String × T))
      → All Named es
      → find_letter j (letters_of unmarshal es) ≡ decode_entry unmarshal (entry_at j es)
  unfolding find_letter
  find_letter-letters_of j [] h = refl
  find_letter-letters_of j (e ∷ es) ((d, reads, named), h) =
      let at : str_eq d.id j ≡ str_eq (e.0) j = ap (λ x. str_eq x j) named in
      elim (Bool-cases (str_eq (e.0) j)) [
        | inl is ↦ rw (reads, find_letter, at ∙ is, is) (sym reads)
        | inr past ↦ rw (reads, find_letter, at ∙ past, past) (find_letter-letters_of j es h)
      ]

  letter_at_lem :
      (r : R) (j : String)
      → IsNamed r
      → letter_at r j ≡ decode_entry unmarshal (entry_at j (hs.hgetall r key))
  unfolding list
  letter_at_lem r j h = find_letter-letters_of j (hs.hgetall r key) h

  -- A call keeps the fields named by the IDs, and does to the letters what it does to a map.
  stored-IsNamed :
      (r : R) (link : Link) (id : String) (now : ℕ) (item : A) (error : String)
      → IsReadable
      → IsNamed r
      → (written : Option T) → marshal (new_letter id now item error) ≡ written
      → IsNamed (stored hs r key link id written).0
  stored-IsNamed r link id now item error readable h none e = h
  stored-IsNamed r replied id now item error readable h (some v) e =
      hs.All-hset Named r key id v h
        (new_letter id now (decoded item) error, readable id now item error v e, refl)
  stored-IsNamed r refused id now item error readable h (some v) e = h
  stored-IsNamed r reply_lost id now item error readable h (some v) e =
      hs.All-hset Named r key id v h
        (new_letter id now (decoded item) error, readable id now item error v e, refl)

  perform-IsNamed : (r : R) (c : DeadLetterCall A) → IsReadable → IsNamed r → IsNamed (perform r c)
  unfolding perform add remove
  perform-IsNamed r (add_call link id now item error) readable h =
      stored-IsNamed r link id now item error readable h _ refl
  perform-IsNamed r (remove_call replied id) readable h = hs.All-hdel Named r key id h
  perform-IsNamed r (remove_call refused id) readable h = h
  perform-IsNamed r (remove_call reply_lost id) readable h = hs.All-hdel Named r key id h

  letter_at-hset :
      (r : R) (id j : String) (v : T) (d : DeadLetterItem B)
      → unmarshal v ≡ some d
      → d.id ≡ id
      → IsNamed r
      → letter_at (hs.hset r key id v) j ≡ put id (some d) (letter_at r) j
  letter_at-hset r id j v d reads named h =
      letter_at_lem (hs.hset r key id v) j (hs.All-hset Named r key id v h (d, reads, named))
      ∙ ap (decode_entry unmarshal) (hs.entry_at-hset r key id j v)
      ∙ elim (Bool-cases (str_eq id j)) [
        | inl is ↦ rw is reads
        | inr past ↦ rw past (sym (letter_at_lem r j h))
      ]

  letter_at-hdel :
      (r : R) (id j : String)
      → IsNamed r
      → letter_at (hs.hdel r key id) j ≡ put id none (letter_at r) j
  letter_at-hdel r id j h =
      letter_at_lem (hs.hdel r key id) j (hs.All-hdel Named r key id h)
      ∙ ap (decode_entry unmarshal) (hs.entry_at-hdel r key id j)
      ∙ elim (Bool-cases (str_eq id j)) [
        | inl is ↦ rw is refl
        | inr past ↦ rw past (sym (letter_at_lem r j h))
      ]

  letter_at-stored :
      (r : R) (link : Link) (id : String) (now : ℕ) (item : A) (error : String) (j : String)
      → IsReadable
      → IsNamed r
      → (written : Option T) → marshal (new_letter id now item error) ≡ written
      → letter_at (stored hs r key link id written).0 j
        ≡ write link id written (new_letter id now (decoded item) error) (letter_at r) j
  letter_at-stored r replied id now item error j readable h none e = refl
  letter_at-stored r refused id now item error j readable h none e = refl
  letter_at-stored r reply_lost id now item error j readable h none e = refl
  letter_at-stored r replied id now item error j readable h (some v) e =
      letter_at-hset r id j v _ (readable id now item error v e) refl h
  letter_at-stored r refused id now item error j readable h (some v) e = refl
  letter_at-stored r reply_lost id now item error j readable h (some v) e =
      letter_at-hset r id j v _ (readable id now item error v e) refl h

  letter_at-perform :
      (r : R) (c : DeadLetterCall A) (j : String)
      → IsReadable
      → IsNamed r
      → letter_at (perform r c) j ≡ apply (letter_at r) c j
  unfolding perform add remove
  letter_at-perform r (add_call link id now item error) j readable h =
      letter_at-stored r link id now item error j readable h _ refl
  letter_at-perform r (remove_call replied id) j readable h = letter_at-hdel r id j h
  letter_at-perform r (remove_call refused id) j readable h = refl
  letter_at-perform r (remove_call reply_lost id) j readable h = letter_at-hdel r id j h

  -- Where what marshal writes is read back as the letter with its item decoded, and each stored
  -- value is readable under its letter's ID: after any calls of Add and Remove, whether they are
  -- run, refused or lose their reply, List has under each ID the letter that the same calls leave
  -- in a map from IDs to letters, and each stored value is still readable under its letter's ID.
  pub letter_at-perform_all :
      (cs : List (DeadLetterCall A)) (r : R)
      → IsReadable
      → IsNamed r
      → ((j : String) → letter_at (perform_all r cs) j ≡ apply_all (letter_at r) cs j)
        × IsNamed (perform_all r cs)
  unfolding perform_all
  letter_at-perform_all [] r readable h = (λ j. refl, h)
  letter_at-perform_all (c ∷ cs) r readable h =
      let rest = letter_at-perform_all cs (perform r c) readable (perform-IsNamed r c readable h) in
      let first : letter_at (perform r c) ≡ apply (letter_at r) c =
        fun_ext (λ j. letter_at-perform r c j readable h) in
      (λ j. rest.0 j ∙ ap (λ m. apply_all m cs j) first, rest.1)

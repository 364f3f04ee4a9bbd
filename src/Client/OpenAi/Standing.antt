-- ===== src/Client/OpenAi/Standing.antt =====
-- The blocks of a message by class, and the indices that client/transports/openai/streamer.py keeps of
-- them: what appending a block, extending one and replacing a call leave in place.
use luca_py.Base.{
  ℕ, zero, suc, String, ◌≡◌, refl, sym, ap, ◌∙◌, subst, Option, none, some, List, [], ◌∷◌, ◌++◌,
  ◌==◌, All, All-map, length, if-P, arith,
}
use luca_py.Client.Streamer.{start, other, finish, error}
use luca_py.Client.Blocks.{
  Part, Block, Kind, start_of, delta_of, end_of, block_of, extend_text, extend_arguments, modify,
}
use luca_py.Client.OpenAi.{Own, Content, Event, Chat, assign}
use luca_py.Client.OpenAi.Handlers.{index_of, set_index}

pub data Class : Type 0 where
  text thinking refusal call : Class

abbrev class_of : Block → Class
class_of (Block.text t) = Class.text
class_of (Block.thinking t) = Class.thinking
class_of (Block.refusal t) = Class.refusal
class_of (Block.tool_call c) = Class.call

abbrev pub class_at : Content → ℕ → Option Class
class_at [] i = none
class_at (b ∷ bs) zero = some (class_of b)
class_at (b ∷ bs) (suc i) = class_at bs i

abbrev pub class_of_kind : Kind → Class
class_of_kind Kind.text = Class.text
class_of_kind Kind.thinking = Class.thinking
class_of_kind Kind.refusal = Class.refusal

-- The block that a part of the message speaks of.
abbrev place_of : Part → Option (ℕ × Class)
place_of (Part.text_start i) = some (i, Class.text)
place_of (Part.text_delta i t) = some (i, Class.text)
place_of (Part.text_end i t) = some (i, Class.text)
place_of (Part.thinking_start i) = some (i, Class.thinking)
place_of (Part.thinking_delta i t) = some (i, Class.thinking)
place_of (Part.thinking_end i t) = some (i, Class.thinking)
place_of (Part.refusal_start i) = some (i, Class.refusal)
place_of (Part.refusal_delta i t) = some (i, Class.refusal)
place_of (Part.refusal_end i t) = some (i, Class.refusal)
place_of (Part.tool_call_start i id name) = some (i, Class.call)
place_of (Part.tool_call_delta i t) = some (i, Class.call)
place_of (Part.tool_call_end i c) = some (i, Class.call)
place_of (Part.usage u) = none

abbrev Stands : Content → Option (ℕ × Class) → Type 0
Stands content none = Unit {0}
Stands content (some (i, k)) = class_at content i ≡ some k

abbrev pub Placed : Content → Event → Type 0
Placed content start = Unit {0}
Placed content (other part) = Stands content (place_of part)
Placed content (finish m) = Unit {0}
Placed content (error f u) = Unit {0}

abbrev At : Option ℕ → Class → Content → Type 0
At none k content = Unit {0}
At (some i) k content = class_at content i ≡ some k

-- The indices that the streamer keeps, against the content of its message.
abbrev pub IsIndexed : Own → Content → Type 0
IsIndexed own content =
    At own.text_index Class.text content
    × At own.reasoning_index Class.thinking content
    × At own.refusal_index Class.refusal content
    × All (λ p. class_at content p.1 ≡ some Class.call) own.tool_indices

abbrev pub Indexed : Chat → Type 0
Indexed s = IsIndexed s.own s.message.content

abbrev pub Grows : Content → Content → Type 0
Grows c d = (i : ℕ) (k : Class) → class_at c i ≡ some k → class_at d i ≡ some k

pub class_at-append_left : (c d : Content) → Grows c (c ++ d)
class_at-append_left [] d i k h = absurd (ground (arith, h))
class_at-append_left (b ∷ c) d zero k h = h
class_at-append_left (b ∷ c) d (suc i) k h = class_at-append_left c d i k h

pub class_at-length :
    (c : Content) (b : Block) → class_at (c ++ b ∷ []) (length c) ≡ some (class_of b)
class_at-length [] b = refl
class_at-length (x ∷ c) b = class_at-length c b

pub class_at-modify :
    (f : Block → Block)
    → ((b : Block) → class_of (f b) ≡ class_of b)
    → (i : ℕ) (c : Content) → Grows c (modify f i c)
class_at-modify f same i [] j k h = h
class_at-modify f same zero (b ∷ c) zero k h = ap some (same b) ∙ h
class_at-modify f same zero (b ∷ c) (suc j) k h = h
class_at-modify f same (suc i) (b ∷ c) zero k h = h
class_at-modify f same (suc i) (b ∷ c) (suc j) k h = class_at-modify f same i c j k h

pub class_at-replace :
    (n : Block) (i : ℕ) (c : Content)
    → class_at c i ≡ some (class_of n)
    → Grows c (modify (λ b. n) i c)
class_at-replace n i [] e j k h = h
class_at-replace n zero (b ∷ c) e zero k h = sym e ∙ h
class_at-replace n zero (b ∷ c) e (suc j) k h = h
class_at-replace n (suc i) (b ∷ c) e zero k h = h
class_at-replace n (suc i) (b ∷ c) e (suc j) k h = class_at-replace n i c e j k h

pub extend_text-class : (t : String) (b : Block) → class_of (extend_text t b) ≡ class_of b
extend_text-class t (Block.text x) = refl
extend_text-class t (Block.thinking x) = refl
extend_text-class t (Block.refusal x) = refl
extend_text-class t (Block.tool_call c) = refl

pub extend_arguments-class : (t : String) (b : Block) → class_of (extend_arguments t b) ≡ class_of b
extend_arguments-class t (Block.text x) = refl
extend_arguments-class t (Block.thinking x) = refl
extend_arguments-class t (Block.refusal x) = refl
extend_arguments-class t (Block.tool_call c) = refl

At-Grows : (o : Option ℕ) (k : Class) (c d : Content) → Grows c d → At o k c → At o k d
At-Grows none k c d g h = tt
At-Grows (some i) k c d g h = g i k h

pub IsIndexed-Grows : (own : Own) (c d : Content) → Grows c d → IsIndexed own c → IsIndexed own d
IsIndexed-Grows own c d g h = (
  At-Grows own.text_index Class.text c d g h.0,
  At-Grows own.reasoning_index Class.thinking c d g h.1,
  At-Grows own.refusal_index Class.refusal c d g h.2,
  All-map _ _ own.tool_indices (λ p. g p.1 Class.call) h.3,
)

Stands-Grows : (c d : Content) (p : Option (ℕ × Class)) → Grows c d → Stands c p → Stands d p
Stands-Grows c d none g h = tt
Stands-Grows c d (some (i, k)) g h = g i k h

pub Placed-Grows : (c d : Content) (e : Event) → Grows c d → Placed c e → Placed d e
Placed-Grows c d start g h = tt
Placed-Grows c d (other part) g h = Stands-Grows c d (place_of part) g h
Placed-Grows c d (finish m) g h = tt
Placed-Grows c d (error f u) g h = tt

pub All-assign :
    (Q : ℕ → Type 0) (k n : ℕ) (d : List (ℕ × ℕ))
    → All (λ p. Q p.1) d
    → Q n
    → All (λ p. Q p.1) (assign k n d)
All-assign Q k n [] h q = (q, tt)
All-assign Q k n ((j, m) ∷ d) h q =
    if-P (All (λ p. Q p.1)) (j == k) (q, h.1) (h.0, All-assign Q k n d h.1 q)

pub Grows-refl : (c : Content) → Grows c c
Grows-refl c i k h = h

index_of-At :
    (kind : Kind) (own : Own) (c : Content)
    → IsIndexed own c
    → At (index_of kind own) (class_of_kind kind) c
index_of-At Kind.text own c h = h.0
index_of-At Kind.thinking own c h = h.1
index_of-At Kind.refusal own c h = h.2

pub index_at :
    (kind : Kind) (n : ℕ) (own : Own) (c : Content)
    → IsIndexed own c
    → index_of kind own ≡ some n
    → class_at c n ≡ some (class_of_kind kind)
index_at kind n own c h e = subst (λ o. At o (class_of_kind kind) c) e (index_of-At kind own c h)

pub set_index-IsIndexed :
    (kind : Kind) (o : Option ℕ) (own : Own) (c : Content)
    → IsIndexed own c
    → At o (class_of_kind kind) c
    → IsIndexed (set_index kind o own) c
set_index-IsIndexed Kind.text o own c h k = (k, h.1, h.2, h.3)
set_index-IsIndexed Kind.thinking o own c h k = (h.0, k, h.2, h.3)
set_index-IsIndexed Kind.refusal o own c h k = (h.0, h.1, k, h.3)

block_of-class : (kind : Kind) (t : String) → class_of (block_of kind t) ≡ class_of_kind kind
block_of-class Kind.text t = refl
block_of-class Kind.thinking t = refl
block_of-class Kind.refusal t = refl

pub block_at :
    (kind : Kind) (c : Content)
    → class_at (c ++ block_of kind "" ∷ []) (length c) ≡ some (class_of_kind kind)
block_at kind c = class_at-length c (block_of kind "") ∙ ap some (block_of-class kind "")

pub start_of-Stands :
    (kind : Kind) (n : ℕ) (c : Content)
    → class_at c n ≡ some (class_of_kind kind)
    → Stands c (place_of (start_of kind n))
start_of-Stands Kind.text n c h = h
start_of-Stands Kind.thinking n c h = h
start_of-Stands Kind.refusal n c h = h

pub delta_of-Stands :
    (kind : Kind) (n : ℕ) (t : String) (c : Content)
    → class_at c n ≡ some (class_of_kind kind)
    → Stands c (place_of (delta_of kind n t))
delta_of-Stands Kind.text n t c h = h
delta_of-Stands Kind.thinking n t c h = h
delta_of-Stands Kind.refusal n t c h = h

pub end_of-Stands :
    (kind : Kind) (n : ℕ) (t : String) (c : Content)
    → class_at c n ≡ some (class_of_kind kind)
    → Stands c (place_of (end_of kind n t))
end_of-Stands Kind.text n t c h = h
end_of-Stands Kind.thinking n t c h = h
end_of-Stands Kind.refusal n t c h = h

-- ===== src/Request/Buffering.antt =====
-- What becomes of a body that is set from a reader (request.go, `bufferBody` and `resolveBody`).
use go_httpclient.Shared.{
  ℕ, zero, suc, ◌+◌, ◌≤◌, ◌<◌, ◌≡◌, refl, ap, true, false, Option, none, some, List, [], ◌∷◌, ◌++◌,
  length, leb, arith, inl, inr, Bool-cases,
}
use go_httpclient.Request.{Source, Sending, from_bytes, spliced}
use go_httpclient.Request.Execute.{
  max_buffer_bytes, take, drop, buffer_body, buffered, streamed, resolved, resolve_body,
}

-- What a reader of the builder gives.
abbrev pub sending_content : Sending → List ℕ
sending_content (from_bytes bs) = bs
sending_content (spliced bs src) = bs ++ src.content

take-append-drop : (n : ℕ) (xs : List ℕ) → take n xs ++ drop n xs ≡ xs
unfolding take drop
take-append-drop zero xs = refl
take-append-drop (suc n) [] = refl
take-append-drop (suc n) (x ∷ xs) = ap (λ l. x ∷ l) (take-append-drop n xs)

not_leb : (n k : ℕ) → k < n → leb n k ≡ false
not_leb n k h = ground arith

is_leb : (n k : ℕ) → n ≤ k → leb n k ≡ true
is_leb n k h = ground arith

pub buffer_small :
    (src : Source)
    → src.failure ≡ none
    → length src.content ≤ max_buffer_bytes
    → buffer_body src ≡ buffered src.content
unfolding buffer_body
buffer_small src clean small =
    rw (not_leb (max_buffer_bytes + 1) (length src.content) (ground arith), clean)

pub buffer_large :
    (src : Source)
    → max_buffer_bytes < length src.content
    → buffer_body src
      ≡ streamed (
          spliced
            (take (max_buffer_bytes + 1) src.content)
            (record src { content = drop (max_buffer_bytes + 1) src.content }))
unfolding buffer_body
buffer_large src large = rw (is_leb (max_buffer_bytes + 1) (length src.content) (ground arith))

-- A body set from a reader that does not fail reaches the request unchanged, whatever its length.
-- It is kept for replay exactly if it has at most 10 MB; the rest of a longer one is left in the
-- reader.
pub resolve_body-content :
    (src : Source)
    → src.failure ≡ none
    → (s : Sending) × (bytes : Option (List ℕ)) × (resolve_body (some src) none
        ≡ resolved (some s) bytes)
      × (sending_content s ≡ src.content)
      × (length src.content ≤ max_buffer_bytes → bytes ≡ some src.content)
      × (max_buffer_bytes < length src.content → bytes ≡ none)
unfolding resolve_body
resolve_body-content src clean =
    elim (Bool-cases (leb (max_buffer_bytes + 1) (length src.content))) [
      | inl h ↦ (
        spliced (take (max_buffer_bytes + 1) src.content)
            (record src { content = drop (max_buffer_bytes + 1) src.content }),
        none,
        rw (buffer_large src (ground arith)),
        take-append-drop (max_buffer_bytes + 1) src.content,
        λ small. absurd (ground arith),
        λ large. refl,
      )
      | inr h ↦ (
        from_bytes src.content,
        some src.content,
        rw (buffer_small src clean (ground arith)),
        refl,
        λ small. refl,
        λ large. absurd (ground arith),
      )
    ]

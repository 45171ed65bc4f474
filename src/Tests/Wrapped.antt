-- ===== src/Tests/Wrapped.antt =====
-- External content at concrete inputs.
use ghostclaw.Base.{◌≡◌, refl, true, ◌++◌, none, some}
use ghostclaw.Base.Text.{Bytes, codes, index_of, is_prefix}
use ghostclaw.Common.Fs.{lower_byte, to_lower}
use ghostclaw.Security.ExternalContent.{
  external_start, external_end, email, sanitize_external_markers, wrap_external_content,
}
use ghostclaw.Security.ExternalContent.Sanitized.{sanitize-index_of}
use ghostclaw.Security.ExternalContent.Wrapped.{ValueNoEnd, wrap-ends_once}

sanitize-index_of_example :
    (index_of
        (to_lower external_start)
        (to_lower (sanitize_external_markers (codes "a" ++ external_end)))
      ≡ none)
    × (index_of
          (to_lower external_end)
          (to_lower (sanitize_external_markers (codes "a" ++ external_end)))
        ≡ none)
sanitize-index_of_example = sanitize-index_of (codes "a" ++ external_end)

plain_sender : ValueNoEnd (some (codes "bob@example.org"))
unfolding to_lower lower_byte index_of is_prefix
plain_sender = refl

wrap-ends_once_example :
    (front : Bytes) × (wrap_external_content
        (codes "hello")
        email
        (some (codes "bob@example.org"))
        none
        true
      ≡ front ++ external_end)
    × (index_of (to_lower external_end) (to_lower front) ≡ none)
wrap-ends_once_example =
    wrap-ends_once (codes "hello") email (some (codes "bob@example.org")) none true plain_sender tt

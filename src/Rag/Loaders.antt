-- ===== src/Rag/Loaders.antt =====
-- backend/app/modules/rag/loaders.py: the three loaders and the choice between them. The parsers of PDF
-- and DOCX, the decoding of bytes and the names of the content types, which an upload module that is
-- not in the repository declares, are the record `Parsers`.
use research_assistant.Base.{
  ℕ, ◌≡◌, refl, arith, String, Bool, Option, none, some, List, [], ◌∷◌, ◌++◌, append_assoc, map,
  mem, Dict, ◌==◌, string_eq, if◌then◌else◌,
}
use research_assistant.Base.Text.{strip, join, ◌<>◌}
use research_assistant.Core.Errors.{Result, ok, err, raise_insight, invalid_file_type, ◌>>=◌}
use research_assistant.Rag.Chunks.{LoadedDocument}
use research_assistant.Rag.Pipeline.{DocumentLoader}
use research_assistant.Rag.Stores.{starts_with}

-- A page of the PDF library: its text, the number of the page in its metadata, and the metadata.
pub record PdfPage : Type 0 where
  pub page_content : Option String
  pub page : Option ℕ
  pub metadata : Dict String String

-- A paragraph of the DOCX library, with the name of its style if it has one.
pub record Paragraph : Type 0 where
  pub text : String
  pub style_name : Option String

pub record Parsers (Bytes : Type 0) : Type 0 where
  pub decode : (encoding : String) → Bytes → String
  pub pdf_pages : Bytes → Result (List PdfPage)
  pub docx_paragraphs : Bytes → Result (List Paragraph)
  pub normalize_content_type : String → String
  pub docx_type : String
  pub text_types : List String
  pub lower : String → String

-- `TextDocumentLoader.load`
abbrev pub text_document : String → LoadedDocument
text_document text = record {
  page_content = text;
  source = "text";
  page = none;
  heading = none;
  metadata = [];
}

abbrev or_empty : Option String → String
or_empty none = ""
or_empty (some text) = text

-- `PDFDocumentLoader.load`, of one page
abbrev pub pdf_document : PdfPage → LoadedDocument
pdf_document page = record {
  page_content = or_empty page.page_content;
  source = "pdf";
  page = page.page;
  heading = none;
  metadata = page.metadata;
}

-- A section: its heading and its lines.
abbrev pub Section : Type 0
Section = Option String × List String

unfoldable pub is_heading : (lower : String → String) → Paragraph → Bool
unfolding starts_with
is_heading lower paragraph = starts_with "heading" (lower (or_empty paragraph.style_name))

-- The loop over the paragraphs, from `current_heading` and `current_lines`; the last section is flushed
-- at the end.
unfoldable pub sections_from :
    (lower : String → String)
    → (heading : Option String) → (lines : List String) → List Paragraph
    → List Section
unfolding strip is_heading
sections_from lower heading lines [] = (heading, lines) ∷ []
sections_from lower heading lines (paragraph ∷ paragraphs) =
    let text = strip paragraph.text in
    let skipped = sections_from lower heading lines paragraphs in
    let opened = (heading, lines) ∷ sections_from lower (some text) [] paragraphs in
    let longer = sections_from lower heading (lines ++ (text ∷ [])) paragraphs in
    if text == "" then skipped else if is_heading lower paragraph then opened else longer

-- The documents of the sections that have a text.
unfoldable pub section_documents : List Section → List LoadedDocument
unfolding join strip
section_documents [] = []
section_documents ((heading, lines) ∷ sections) =
    let rest = section_documents sections in
    let content = strip (join "\n" lines) in
    if content == ""
    then rest
    else record {
      page_content = content;
      source = "docx";
      page = none;
      heading = heading;
      metadata = [];
    }
      ∷ rest

-- `DOCXDocumentLoader.load`, of the paragraphs
unfoldable pub docx_documents : (lower : String → String) → List Paragraph → List LoadedDocument
unfolding sections_from section_documents
docx_documents lower paragraphs = section_documents (sections_from lower none [] paragraphs)

module _ {Bytes : Type 0} (parsers : Parsers Bytes) where
  abbrev pub text_loader : (encoding : String) → DocumentLoader Bytes
  text_loader encoding = record {
    parser = "text";
    load = λ bytes. ok (text_document (parsers.decode encoding bytes) ∷ []);
  }

  abbrev pub pdf_loader : DocumentLoader Bytes
  pdf_loader = record {
    parser = "pdf";
    load = λ bytes. parsers.pdf_pages bytes >>= λ pages. ok (map pdf_document pages);
  }

  unfoldable pub docx_loader : DocumentLoader Bytes
  unfolding docx_documents
  docx_loader = record {
    parser = "docx";
    load = λ bytes. parsers.docx_paragraphs bytes >>= λ paragraphs.
        ok (docx_documents parsers.lower paragraphs);
  }

  unfoldable pub build_loader : (content_type : String) → Result (DocumentLoader Bytes)
  unfolding docx_loader mem raise_insight
  build_loader content_type =
      let normalized = parsers.normalize_content_type content_type in
      if normalized == "application/pdf"
      then ok pdf_loader
      else if normalized == parsers.docx_type
      then ok docx_loader
      else if mem normalized parsers.text_types
      then ok (text_loader "utf-8")
      else err (raise_insight invalid_file_type ("No loader for content type: " <> content_type))

-- The lines of all sections, in order.
abbrev section_lines : List Section → List String
section_lines [] = []
section_lines ((heading, lines) ∷ sections) = lines ++ section_lines sections

-- The texts of the paragraphs that are neither blank nor headings, in order.
unfoldable pub body_lines : (lower : String → String) → List Paragraph → List String
unfolding strip is_heading
body_lines lower [] = []
body_lines lower (paragraph ∷ paragraphs) =
    let text = strip paragraph.text in
    let rest = body_lines lower paragraphs in
    if text == "" then rest else if is_heading lower paragraph then rest else text ∷ rest

-- The sections hold every line of the body, in order and once.
pub section_lines-sections_from :
    (lower : String → String) (heading : Option String) (lines : List String)
    → (paragraphs : List Paragraph)
    → section_lines (sections_from lower heading lines paragraphs)
      ≡ lines ++ body_lines lower paragraphs
unfolding sections_from body_lines
section_lines-sections_from lower heading lines [] = refl
section_lines-sections_from lower heading lines (paragraph ∷ paragraphs) = ground (
  arith,
  append_assoc lines (strip paragraph.text ∷ []) (body_lines lower paragraphs),
  section_lines-sections_from lower heading lines paragraphs,
  section_lines-sections_from lower (some (strip paragraph.text)) [] paragraphs,
  section_lines-sections_from lower heading (lines ++ (strip paragraph.text ∷ [])) paragraphs,
)

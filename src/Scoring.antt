-- ===== src/Scoring.antt =====
-- src/scoring.ts: the three ratio scores, from the annual figures that src/repositories/
-- scoringRepository.ts reads. `Num` stands for JavaScript's numbers, `Series` picks the years.
pub mod Num
pub mod Series
pub mod Outcome
pub mod Altman
pub mod Piotroski
pub mod Beneish

-- ===== src/Crawler.antt =====
-- The crawl worker: services/crawler/src/.
pub mod Fetch
pub mod Update
pub mod Pool
pub mod RobotsFile
pub mod RobotsTags
pub mod Robots
pub mod SiteRules
pub mod Page
pub mod Discovery
pub mod Process
